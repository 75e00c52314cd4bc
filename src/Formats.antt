-- ===== src/Formats.antt =====
-- How the summary of the build and the table of the server print: `format_bytes`, which
-- rust-server/build_helpers/mod.rs and rust-server/src/startup.rs each have, and the fixed widths of
-- `format!`, which count characters.
pub mod Units
pub mod Example
mod Tests
use single_binary_static_web.Prelude.{
  ℕ, zero, suc, ◌-◌, Bool, not, [], ◌∷◌, ◌++◌, ◌&&◌, if◌then◌else◌, ltb, leb, ◌==◌, Text, codes,
  decimal,
}

-- What the code does with f64, whose values are given by their 64 bits.
pub record F64 : Type 0 where
  -- `n as f64`
  pub of_usize : ℕ → ℕ
  -- `size >= 1024.0` and `size /= 1024.0`
  pub is_large : ℕ → Bool
  pub div_1024 : ℕ → ℕ
  -- `(a / b) * 100.0`
  pub percent : ℕ → ℕ → ℕ
  -- `100.0`
  pub hundred : ℕ
  -- `{:.1}`
  pub display : ℕ → Text

-- The loop, with the number of units after the current one, and the index of that.
pub scale : F64 → ℕ → ℕ → ℕ → ℕ × ℕ
scale f zero size unit_idx = (size, unit_idx)
scale f (suc later) size unit_idx =
    let next = scale f later (f.div_1024 size) (suc unit_idx) in
    if f.is_large size then next else (size, unit_idx)

-- `UNITS`, whose last index is 3.
abbrev pub unit : ℕ → Text
unit zero = codes "B"
unit (suc zero) = codes "KB"
unit (suc (suc zero)) = codes "MB"
unit (suc (suc (suc _))) = codes "GB"

abbrev pub in_unit : F64 → ℕ → ℕ × ℕ → Text
unfolding decimal
in_unit f bytes (size, unit_idx) =
    if unit_idx == 0
    then decimal bytes ++ codes " B"
    else f.display size ++ (codes " " ++ unit unit_idx)

unfoldable pub format_bytes : F64 → ℕ → Text
unfolding scale
format_bytes f bytes = in_unit f bytes (scale f 3 (f.of_usize bytes) 0)

-- A byte that does not start a character.
abbrev pub is_continuation : ℕ → Bool
is_continuation b = leb 128 b && ltb b 192

unfoldable pub char_count : Text → ℕ
char_count [] = 0
char_count (b ∷ s) = let rest = char_count s in if is_continuation b then rest else suc rest

abbrev pub repeated : ℕ → ℕ → Text
repeated b zero = []
repeated b (suc n) = b ∷ repeated b n

-- `{:<width}` and `{:>width}`
unfoldable pub left_aligned : ℕ → Text → Text
unfolding char_count
left_aligned width s = s ++ repeated b' ' (width - char_count s)

unfoldable pub right_aligned : ℕ → Text → Text
unfolding char_count
right_aligned width s = repeated b' ' (width - char_count s) ++ s
