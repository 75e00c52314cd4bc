-- ===== src/Build/Literal.antt =====
-- `escape_byte_string` of rust-server/build_helpers/utils.rs, and what a Rust byte string literal
-- stands for.
use single_binary_static_web.Prelude.{
  ℕ, ◌+◌, ◌-◌, ◌*◌, ◌/◌, ◌%◌, ◌<◌, ◌≡◌, refl, ap, false, ◌&&◌, ◌||◌, [], ◌∷◌, ◌++◌, Option, none,
  some, ◌>>=◌, if◌then◌else◌, ◌==◌, leb, ltb, All, Text, arith, Bool-cases, inl, inr, ◌⊎◌, ◌∙◌,
}

-- A digit of `{:X}`
abbrev hex_digit : ℕ → ℕ
hex_digit n = if ltb n 10 then b'0' + n else b'A' + (n - 10)

-- The arm of a byte.
unfoldable pub escape_byte : ℕ → Text
escape_byte b =
    if b == b'\r'
    then b'\\' ∷ b'r' ∷ []
    else if b == b'\n'
    then b'\\' ∷ b'n' ∷ []
    else if b == b'\\'
    then b'\\' ∷ b'\\' ∷ []
    else if b == b'"'
    then b'\\' ∷ b'"' ∷ []
    else if b == b'\t'
    then b'\\' ∷ b't' ∷ []
    else if leb 32 b && leb b 126
    then b ∷ []
    else b'\\' ∷ b'x' ∷ hex_digit (b / 16) ∷ hex_digit (b % 16) ∷ []

unfoldable pub escape_byte_string : Text → Text
unfolding escape_byte
escape_byte_string [] = []
escape_byte_string (b ∷ bytes) = escape_byte b ++ escape_byte_string bytes

-- Where a reader of a literal stands: between characters, behind a backslash, and behind `\\x` with no
-- digit or one.
pub data Reading : Type 0 where
  between escaped hexed : Reading
  half : ℕ → Reading

abbrev hex_value : ℕ → Option ℕ
hex_value c =
    if leb b'0' c && leb c b'9'
    then some (c - b'0')
    else if leb b'A' c && leb c b'F'
    then some (c - b'A' + 10)
    else if leb b'a' c && leb c b'f'
    then some (c - b'a' + 10)
    else none

-- The byte that a character ends, and the new state. A bare quote or carriage return ends no byte.
abbrev read_step : Reading → ℕ → Option (Text × Reading)
read_step between c =
    if c == b'\\'
    then some ([], escaped)
    else if c == b'"' || c == b'\r'
    then none
    else some (c ∷ [], between)
read_step escaped c =
    if c == b'r'
    then some (b'\r' ∷ [], between)
    else if c == b'n'
    then some (b'\n' ∷ [], between)
    else if c == b't'
    then some (b'\t' ∷ [], between)
    else if c == b'\\' || c == b'"'
    then some (c ∷ [], between)
    else if c == b'x'
    then some ([], hexed)
    else none
read_step hexed c = hex_value c >>= λ v. some ([], half v)
read_step (half v) c = hex_value c >>= λ w. some ((v * 16 + w) ∷ [], between)

read : Reading → Text → Option Text
read between [] = some []
read _ [] = none
read st (c ∷ s) = read_step st c >>= λ r. read r.1 s >>= λ bytes. some (r.0 ++ bytes)

-- What the literal `b"…"` with that text between the quotes stands for.
unfoldable pub byte_string : Text → Option Text
unfolding read
byte_string s = read between s

hex_value-hex_digit : (n : ℕ) → n < 16 → hex_value (hex_digit n) ≡ some n
hex_value-hex_digit n h = ground arith

empty-prefix : (o : Option Text) → (o >>= λ bytes. some ([] ++ bytes)) ≡ o
empty-prefix none = refl
empty-prefix (some bytes) = refl

prepended :
    (o : Option Text) (b c : ℕ)
    → b ≡ c
    → ((o >>= λ bytes. some (b ∷ bytes)) >>= λ bytes. some ([] ++ bytes))
      ≡ (o >>= λ bytes. some (c ∷ bytes))
prepended none b c e = refl
prepended (some bytes) b c e = ap (λ x. some (x ∷ bytes)) e

read-hex :
    (b : ℕ) (rest : Text)
    → b < 256
    → read hexed (hex_digit (b / 16) ∷ hex_digit (b % 16) ∷ rest)
      ≡ (read between rest >>= λ bytes. some (b ∷ bytes))
unfolding read
read-hex b rest h =
    rw (hex_value-hex_digit (b / 16) (omega arith), hex_value-hex_digit (b % 16) (omega arith))
      (prepended (read between rest) (b / 16 * 16 + b % 16) b (omega arith))

-- A byte with an escape of one letter.
read-short :
    (b : ℕ) (rest : Text)
    → (b ≡ b'\r') ⊎ ((b ≡ b'\n') ⊎ ((b ≡ b'\\') ⊎ ((b ≡ b'"') ⊎ (b ≡ b'\t'))))
    → read between (escape_byte b ++ rest) ≡ (read between rest >>= λ bytes. some (b ∷ bytes))
unfolding read escape_byte
read-short b rest (inl e) = rw e (prepended (read between rest) 13 13 refl)
read-short b rest (inr (inl e)) = rw e (prepended (read between rest) 10 10 refl)
read-short b rest (inr (inr (inl e))) = rw e (prepended (read between rest) 92 92 refl)
read-short b rest (inr (inr (inr (inl e)))) = rw e (prepended (read between rest) 34 34 refl)
read-short b rest (inr (inr (inr (inr e)))) = rw e (prepended (read between rest) 9 9 refl)

-- Any other byte, printable or not.
read-other :
    (b : ℕ) (rest : Text)
    → b < 256
    → (b == b'\r') ≡ false
    → (b == b'\n') ≡ false
    → (b == b'\\') ≡ false
    → (b == b'"') ≡ false
    → (b == b'\t') ≡ false
    → read between (escape_byte b ++ rest) ≡ (read between rest >>= λ bytes. some (b ∷ bytes))
unfolding read escape_byte
read-other b rest h r n s q t = elim (Bool-cases (leb 32 b && leb b 126)) [
  | inl shown ↦ rw (r, n, s, q, t, shown) (rw (r, s, q) refl)
  | inr hidden ↦ rw (r, n, s, q, t, hidden) (empty-prefix _ ∙ empty-prefix _ ∙ read-hex b rest h)
]

read-escape_byte :
    (b : ℕ) (rest : Text)
    → b < 256
    → read between (escape_byte b ++ rest) ≡ (read between rest >>= λ bytes. some (b ∷ bytes))
read-escape_byte b rest h = ground (arith, read-short b rest, read-other b rest h)

-- The literal that is written for any bytes stands for those bytes, so no byte ends it early.
pub byte_string-escape_byte_string :
    (bytes : Text) → All (λ b. b < 256) bytes → byte_string (escape_byte_string bytes) ≡ some bytes
unfolding byte_string escape_byte_string
byte_string-escape_byte_string [] h = unfold read in refl
byte_string-escape_byte_string (b ∷ bytes) (h, hs) =
    read-escape_byte b (escape_byte_string bytes) h
    ∙ ap (λ o. o >>= λ bytes. some (b ∷ bytes)) (byte_string-escape_byte_string bytes hs)

-- A character that a literal has as it is.
abbrev pub IsPlain : ℕ → Type 0
IsPlain c = ((c == b'\\') ≡ false) × ((c == b'"' || c == b'\r') ≡ false)

pub byte_string-IsPlain : (s : Text) → All IsPlain s → byte_string s ≡ some s
unfolding byte_string read
byte_string-IsPlain [] h = refl
byte_string-IsPlain (c ∷ s) ((escape, end), h) =
    rw (escape, end) (ap (λ o. o >>= λ bytes. some (c ∷ bytes)) (byte_string-IsPlain s h))
