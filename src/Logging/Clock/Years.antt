-- ===== src/Logging/Clock/Years.antt =====
-- The year that begins in March, as in `civil_from_days`: a day number split at the first days of March.
use native.Mathlib.Nat.{le_refl, le_trans, le_of_eq, lt_irrefl}
use native.Mathlib.Decide.{le_ind, dec_lt}
use native.Mathlib.Numerals.{add-one}
use single_binary_static_web.Prelude.{
  ℕ, ◌+◌, ◌-◌, ◌*◌, ◌/◌, ◌%◌, ◌<◌, ◌≤◌, ◌≡◌, sym, ◌⊎◌, inl, inr, arith,
}
use single_binary_static_web.Logging.Clock.{day_of_era, year_of_era, day_of_year}

-- Days before the March that begins year `k`, from the year 0.
abbrev pub year_start : ℕ → ℕ
year_start k = 365 * k + k / 4 - k / 100 + k / 400

abbrev pub march_year : ℕ → ℕ
march_year z = year_of_era (day_of_era z) + z / 146097 * 400

abbrev pub march_day : ℕ → ℕ
march_day z = day_of_year (day_of_era z) (year_of_era (day_of_era z))

day_of_era-lt : (z : ℕ) → (day_of_era z ≡ z % 146097) × (day_of_era z < 146097)
unfolding day_of_era
day_of_era-lt z = omega arith

-- `year_of_era` finds the year of the era, and the subtraction in `day_of_year` does not stop at 0.
year_of_era_bounds :
    (doe : ℕ)
    → doe < 146097
    → (year_of_era doe < 400)
      × (365 * year_of_era doe + year_of_era doe / 4 - year_of_era doe / 100 ≤ doe)
      × (doe < year_start (year_of_era doe + 1))
unfolding year_of_era
year_of_era_bounds doe h = omega arith

pub march_bounds :
    (z : ℕ) → (year_start (march_year z) + march_day z ≡ z) × (z < year_start (march_year z + 1))
unfolding day_of_year
march_bounds z =
    omega (arith, day_of_era-lt z, year_of_era_bounds (day_of_era z) (day_of_era-lt z).1)

year_start_step : (k : ℕ) → year_start k + 365 ≤ year_start (k + 1)
year_start_step k = omega arith

year_start_mono : (a b : ℕ) → a ≤ b → year_start a ≤ year_start b
year_start_mono a b =
    le_ind (λ m. year_start a ≤ year_start m) (le_refl _)
      (λ m le ih. rw (← add-one m) (le_trans ih (omega (arith, year_start_step m)))) b

-- The two bounds determine the year.
year_unique :
    (z a b : ℕ)
    → year_start a ≤ z
    → z < year_start (a + 1)
    → year_start b ≤ z
    → z < year_start (b + 1)
    → a ≡ b
year_unique z a b h h' k k' = elim (dec_lt a b) [
  | yes lt ↦
      absurd (lt_irrefl z (le_trans h' (le_trans (year_start_mono (a + 1) b (omega arith)) k)))
  | no ge ↦ elim (dec_lt b a) [
    | yes lt ↦
        absurd (lt_irrefl z (le_trans k' (le_trans (year_start_mono (b + 1) a (omega arith)) h)))
    | no le ↦ omega arith
  ]
]

march_year_at :
    (z k : ℕ)
    → year_start k ≤ z
    → z < year_start (k + 1)
    → (march_year z ≡ k) × (march_day z ≡ z - year_start k)
march_year_at z k h h' =
    let same =
      year_unique z (march_year z) k (omega (arith, march_bounds z)) (march_bounds z).1 h h' in
    (same, omega (arith, march_bounds z, same))

-- The next day is in the same year, or the first day of the next.
pub march_next :
    (z : ℕ)
    → ((march_year (z + 1) ≡ march_year z)
        × (march_day (z + 1) ≡ march_day z + 1)
        × (z + 1 < year_start (march_year z + 1)))
      ⊎ ((march_year (z + 1) ≡ march_year z + 1)
          × (march_day (z + 1) ≡ 0)
          × (z + 1 ≡ year_start (march_year z + 1)))
march_next z = elim (dec_lt (z + 1) (year_start (march_year z + 1))) [
  | yes lt ↦
      let (same, day) = march_year_at (z + 1) (march_year z) (omega (arith, march_bounds z)) lt in
      inl (same, omega (arith, march_bounds z, day), lt)
  | no ge ↦
      let first : z + 1 ≡ year_start (march_year z + 1) = omega (arith, march_bounds z) in
      let (same, day) =
        march_year_at (z + 1) (march_year z + 1) (le_of_eq (sym first))
          (le_trans (omega arith) (year_start_step (march_year z + 1))) in
      inr (same, omega (arith, day, first), first)
]
