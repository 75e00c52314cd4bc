-- ===== src/Build/Version.antt =====
-- `compute_version_hash` of rust-server/build_helpers/version_hash.rs and `sha256_hex` of utils.rs, with
-- the digits of `{:x}`. The hasher and SHA-256 are arguments.
use native.Mathlib.Numerals.{unary_clauses}
use single_binary_static_web.Prelude.{
  ℕ, zero, suc, ◌+◌, ◌-◌, ◌*◌, ◌/◌, ◌%◌, ◌^◌, ◌<◌, ◌≡◌, refl, ap, ◌∙◌, [], ◌∷◌, ◌++◌, Option, none,
  some, ◌>>=◌, Option-cases, inl, inr, if◌then◌else◌, ◌&&◌, leb, ltb, length, length-append, Text,
  arith,
}

-- A digit of `{:x}`
abbrev hex_digit : ℕ → ℕ
hex_digit n = if ltb n 10 then b'0' + n else b'a' + (n - 10)

-- `{:0widthx}` of a number below `16 ^ width`
unfoldable pub hex_padded : ℕ → ℕ → Text
hex_padded zero n = []
hex_padded (suc width) n = hex_padded width (n / 16) ++ (hex_digit (n % 16) ∷ [])

-- `now` is none where the clock stands before the Unix epoch, and the `expect` panics.
unfoldable pub compute_version_hash : (ℕ → ℕ) → Option ℕ → Option Text
unfolding hex_padded
compute_version_hash finish now = do time ← now; some (hex_padded 16 (finish time))

unfoldable pub hex_of_bytes : Text → Text
unfolding hex_padded
hex_of_bytes [] = []
hex_of_bytes (b ∷ digest) = hex_padded 2 b ++ hex_of_bytes digest

unfoldable pub sha256_hex : (Text → Text) → Text → Text
unfolding hex_of_bytes
sha256_hex digest content = hex_of_bytes (digest content)

-- The value of a digit, and of a text of digits behind a number.
abbrev hex_value : ℕ → Option ℕ
hex_value c =
    if leb b'0' c && leb c b'9'
    then some (c - b'0')
    else if leb b'a' c && leb c b'f'
    then some (c - b'a' + 10)
    else none

pub read_hex : ℕ → Text → Option ℕ
read_hex n [] = some n
read_hex n (c ∷ s) = hex_value c >>= λ d. read_hex (n * 16 + d) s

hex_value-hex_digit : (d : ℕ) → d < 16 → hex_value (hex_digit d) ≡ some d
hex_value-hex_digit d h = ground arith

read_hex-append : (n : ℕ) (s t : Text) → read_hex n (s ++ t) ≡ (read_hex n s >>= λ m. read_hex m t)
unfolding read_hex
read_hex-append n [] t = refl
read_hex-append n (c ∷ s) t = elim (Option-cases (hex_value c)) [
  | inl bad ↦ rw bad refl
  | inr (d, good) ↦ rw good (read_hex-append (n * 16 + d) s t)
]

-- The digits of a number are as many as the width, and are read as the number.
pub read_hex-hex_padded :
    (width n : ℕ)
    → n < 16 ^ width
    → (length (hex_padded width n) ≡ width) × (read_hex 0 (hex_padded width n) ≡ some n)
unfolding read_hex hex_padded
read_hex-hex_padded zero n h = (refl, ap some (omega arith))
read_hex-hex_padded (suc width) n h =
    let bound : n < 16 ^ width * 16 = simp unary_clauses at h in
    let (len, front) = read_hex-hex_padded width (n / 16) (omega arith) in
    (
      omega (arith, length-append (hex_padded width (n / 16)) (hex_digit (n % 16) ∷ [])),
      read_hex-append 0 (hex_padded width (n / 16)) (hex_digit (n % 16) ∷ [])
          ∙ rw (front, hex_value-hex_digit (n % 16) (omega arith)) (ap some (omega arith)),
    )
