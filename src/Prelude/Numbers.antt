-- ===== src/Prelude/Numbers.antt =====
-- Decimal numbers: `format!("{n}")`, `format!("{n:02}")` and `str::parse` for the unsigned types.
use Prim.Native.Nat.{ℕ, zero, suc, ◌+◌, ◌-◌, ◌*◌, ◌/◌, ◌%◌, ◌≤◌, ◌<◌}
use mathlib.Core.Path.{◌≡◌, refl, ap, ◌∙◌}
use mathlib.Core.Logic.{inl, inr, ◌≢◌}
use mathlib.Core.Bool.{◌&&◌}
use mathlib.Core.List.{[], ◌∷◌, ◌++◌, concat-ne-nil}
use mathlib.Core.Option.{Option, none, some}
use native.Mathlib.Omega.{arith}
use single_binary_static_web.Prelude.Bools.{if◌then◌else◌, ◌==◌, leb, ltb, ◌>>=◌, Bool-cases}
use single_binary_static_web.Prelude.Lists.{length, is_empty, All, All-append}
use single_binary_static_web.Prelude.Texts.{Text}

abbrev pub IsDigit : ℕ → Type 0
IsDigit c = (b'0' ≤ c) × (c ≤ b'9')

-- The decimal digits, with fuel for the number of them.
pub digits : ℕ → ℕ → Text
digits zero n = []
digits (suc f) n =
    let front = digits f (n / 10) in
    if ltb n 10 then (b'0' + n) ∷ [] else front ++ (b'0' + n % 10) ∷ []

-- A number has no more digits than its value and one.
unfoldable pub decimal : ℕ → Text
unfolding digits
decimal n = digits (suc n) n

abbrev pub zeros : ℕ → Text
zeros zero = []
zeros (suc n) = b'0' ∷ zeros n

-- `{:0width}`
unfoldable pub padded : ℕ → ℕ → Text
unfolding decimal
padded width n = let s = decimal n in zeros (width - length s) ++ s

-- The loop of `from_str_radix`: each digit by `checked_mul` and `checked_add` below the bound.
pub scan_digits : ℕ → Text → ℕ → Option ℕ
scan_digits bound [] n = some n
scan_digits bound (c ∷ s) n =
    let rest = scan_digits bound s (n * 10 + (c - b'0')) in
    if leb b'0' c && leb c b'9'
    then (if leb (n * 10 + (c - b'0')) bound then rest else none)
    else none

-- `s.parse::<T>()` for an unsigned type with the largest value `bound`: a `+` may stand in front.
unfoldable pub parse_unsigned : ℕ → Text → Option ℕ
unfolding scan_digits
parse_unsigned bound [] = none
parse_unsigned bound (c ∷ s) =
    if c == b'+'
    then (if is_empty s then none else scan_digits bound s 0)
    else scan_digits bound (c ∷ s) 0

digits-ne-nil : (f n : ℕ) → digits (suc f) n ≢ []
unfolding digits
digits-ne-nil f n = elim (Bool-cases (ltb n 10)) [
  | inl small ↦ rw small (ground arith)
  | inr large ↦ rw large (concat-ne-nil _ _)
]

digits-All : (f n : ℕ) → All IsDigit (digits f n)
unfolding digits
digits-All zero n = tt
digits-All (suc f) n = elim (Bool-cases (ltb n 10)) [
  | inl small ↦ rw small (ground arith)
  | inr large ↦
      rw large (All-append IsDigit (digits f (n / 10)) _ (digits-All f (n / 10)) (omega arith))
]

-- A printed number consists of digits.
pub decimal-All : (n : ℕ) → All IsDigit (decimal n)
unfolding decimal
decimal-All n = digits-All (suc n) n

scan_digits-append :
    (bound : ℕ) (s t : Text) (n : ℕ)
    → scan_digits bound (s ++ t) n ≡ (scan_digits bound s n >>= scan_digits bound t)
unfolding scan_digits
scan_digits-append bound [] t n = refl
scan_digits-append bound (c ∷ s) t n =
    ground (arith, scan_digits-append bound s t (n * 10 + (c - b'0')))

scan_digits-digits : (bound f n : ℕ) → n < f → n ≤ bound → scan_digits bound (digits f n) 0 ≡ some n
unfolding digits
scan_digits-digits bound zero n h k = absurd (omega arith)
scan_digits-digits bound (suc f) n h k = elim (Bool-cases (ltb n 10)) [
  | inl small ↦ rw small (unfold scan_digits in ground arith)
  | inr large ↦ rw large (
      scan_digits-append bound (digits f (n / 10)) _ 0
      ∙ ap (λ o. o >>= scan_digits bound ((b'0' + n % 10) ∷ []))
          (scan_digits-digits bound f (n / 10) (ground arith) (ground arith))
      ∙ (unfold scan_digits in ground arith))
]

parse_unsigned-eq-scan :
    (bound : ℕ) (s : Text) → s ≢ [] → All IsDigit s → parse_unsigned bound s ≡ scan_digits bound s 0
unfolding parse_unsigned
parse_unsigned-eq-scan bound [] h d = absurd (h refl)
parse_unsigned-eq-scan bound (c ∷ s) h (d, ds) = ground arith

-- A printed number is read back, if it is in range.
pub parse_unsigned-decimal : (bound n : ℕ) → n ≤ bound → parse_unsigned bound (decimal n) ≡ some n
unfolding decimal
parse_unsigned-decimal bound n h =
    parse_unsigned-eq-scan bound (digits (suc n) n) (digits-ne-nil n n) (digits-All (suc n) n)
    ∙ scan_digits-digits bound (suc n) n (omega arith) h

-- What is read is in range.
scan_digits-le :
    (bound : ℕ) (s : Text) (n : ℕ) {r : ℕ} → n ≤ bound → scan_digits bound s n ≡ some r → r ≤ bound
unfolding scan_digits
scan_digits-le bound [] n h e = ground arith
scan_digits-le bound (c ∷ s) n {r} h e =
    ground (arith, scan_digits-le bound s (n * 10 + (c - b'0')) {r = r})

pub parse_unsigned-le : (bound : ℕ) (s : Text) {r : ℕ} → parse_unsigned bound s ≡ some r → r ≤ bound
unfolding parse_unsigned
parse_unsigned-le bound [] e = ground arith
parse_unsigned-le bound (c ∷ s) {r} e =
    ground (arith, scan_digits-le bound s 0 {r = r}, scan_digits-le bound (c ∷ s) 0 {r = r})
