-- ===== src/Formats/Units.antt =====
-- Which unit a number of bytes is printed in.
use single_binary_static_web.Prelude.{ℕ, zero, suc, ◌^◌, ◌<◌, ◌≡◌, ◌++◌, leb, Text, codes, decimal}
use single_binary_static_web.Formats.{F64, unit}

abbrev pub divided : F64 → ℕ → ℕ → ℕ
divided f zero size = size
divided f (suc k) size = divided f k (f.div_1024 size)

-- Numbers below 2 ^ 53 are values of f64, and so are all their quotients by a power of 1024.
abbrev pub IsExact : F64 → Type 0
IsExact f =
    (n : ℕ)
    → n < 2 ^ 53
    → (f.is_large (divided f 0 (f.of_usize n)) ≡ leb 1024 n)
      × (f.is_large (divided f 1 (f.of_usize n)) ≡ leb 1048576 n)
      × (f.is_large (divided f 2 (f.of_usize n)) ≡ leb 1073741824 n)

-- A number of bytes in the unit of a power of 1024; whole bytes are not rounded.
abbrev pub printed : F64 → ℕ → ℕ → Text
printed f bytes zero = decimal bytes ++ codes " B"
printed f bytes (suc k) =
    f.display (divided f (suc k) (f.of_usize bytes)) ++ (codes " " ++ unit (suc k))
