-- ===== src/Logging/Clock/Calendar.antt =====
-- The Gregorian calendar, written independently of the code, and `civil_from_days` against it.
use single_binary_static_web.Prelude.{
  ℕ, zero, suc, ◌+◌, ◌-◌, ◌*◌, ◌/◌, ◌%◌, ◌<◌, ◌≤◌, ◌≡◌, refl, sym, ap, ◌∙◌, subst, ◌⊎◌, inl, inr,
  Bool, not, ◌&&◌, ◌||◌, ltb, ◌==◌, if◌then◌else◌, arith,
}
use mathlib.Core.Path.{ap₂}
use native.Mathlib.Decide.{dec_lt}
use native.Mathlib.Numerals.{add-one}
use single_binary_static_web.Logging.Clock.{
  Civil, civil, month_of, day_of_month, from_march, civil_from_days,
}
use single_binary_static_web.Logging.Clock.Years.{
  year_start, march_year, march_day, march_bounds, march_next,
}

abbrev pub is_leap : ℕ → Bool
is_leap y = (y % 4 == 0) && (not (y % 100 == 0) || (y % 400 == 0))

abbrev pub month_length : ℕ → ℕ → ℕ
month_length y m =
    if m == 2
    then (if is_leap y then 29 else 28)
    else if (m == 4) || ((m == 6) || ((m == 9) || (m == 11)))
    then 30
    else 31

-- The day after a date.
abbrev pub next_day : Civil → Civil
next_day c =
    if ltb c.day (month_length c.year c.month)
    then civil c.year c.month (c.day + 1)
    else if ltb c.month 12
    then civil c.year (c.month + 1) 1
    else civil (c.year + 1) 1 1

-- The date `n` days after the first of January 1970, by counting.
pub date_after : ℕ → Civil
date_after zero = civil 1970 1 1
date_after (suc n) = next_day (date_after n)

-- The date of a day of the year that begins in March.
abbrev of_march : ℕ → ℕ → Civil
of_march y doy = from_march y (month_of doy) (day_of_month doy (month_of doy))

civil_from_days-of_march :
    (n : ℕ) → civil_from_days n ≡ of_march (march_year (n + 719468)) (march_day (n + 719468))
unfolding civil_from_days
civil_from_days-of_march n = refl

-- The last day of February, and the days before it.
year_length : (y : ℕ) → year_start (y + 1) ≡ year_start y + (if is_leap (y + 1) then 366 else 365)
year_length y = ground arith

-- Days of the months from March to January.
abbrev march_length : ℕ → ℕ
march_length mp = (153 * (mp + 1) + 2) / 5 - (153 * mp + 2) / 5

next_day-same_month :
    (y mp d : ℕ)
    → mp < 11
    → d < march_length mp
    → next_day (from_march y mp d) ≡ from_march y mp (d + 1)
unfolding from_march
next_day-same_month y mp d h k = ground arith

next_day-next_month :
    (y mp d : ℕ)
    → mp < 11
    → d ≡ march_length mp
    → next_day (from_march y mp d) ≡ from_march y (mp + 1) 1
unfolding from_march
next_day-next_month y mp d h k = ground arith

next_day-february :
    (y d : ℕ)
    → d < (if is_leap (y + 1) then 29 else 28)
    → next_day (from_march y 11 d) ≡ from_march y 11 (d + 1)
unfolding from_march
next_day-february y d h = ground arith

-- What the next day of the year is, as a month and a day.
march_split :
    (doy : ℕ)
    → doy < 365
    → ((day_of_month doy (month_of doy) < march_length (month_of doy))
        × (month_of (doy + 1) ≡ month_of doy)
        × (day_of_month (doy + 1) (month_of doy) ≡ day_of_month doy (month_of doy) + 1))
      ⊎ ((day_of_month doy (month_of doy) ≡ march_length (month_of doy))
          × (month_of (doy + 1) ≡ month_of doy + 1)
          × (day_of_month (doy + 1) (month_of doy + 1) ≡ 1))
unfolding month_of day_of_month
march_split doy h = ground arith

of_march_same :
    (y doy : ℕ)
    → month_of (doy + 1) ≡ month_of doy
    → day_of_month (doy + 1) (month_of doy) ≡ day_of_month doy (month_of doy) + 1
    → from_march y (month_of doy) (day_of_month doy (month_of doy) + 1) ≡ of_march y (doy + 1)
of_march_same y doy m d = rw (m, d)

of_march_next :
    (y doy : ℕ)
    → month_of (doy + 1) ≡ month_of doy + 1
    → day_of_month (doy + 1) (month_of doy + 1) ≡ 1
    → from_march y (month_of doy + 1) 1 ≡ of_march y (doy + 1)
of_march_next y doy m d = rw (m, d)

february_days :
    (y doy : ℕ)
    → doy + 1 < (if is_leap (y + 1) then 366 else 365)
    → ¬ (month_of doy < 11)
    → (month_of doy ≡ 11) × (day_of_month doy (month_of doy) < (if is_leap (y + 1) then 29 else 28))
unfolding month_of day_of_month
february_days y doy h k = ground arith

next_day-within :
    (y doy : ℕ)
    → doy + 1 < (if is_leap (y + 1) then 366 else 365)
    → next_day (of_march y doy) ≡ of_march y (doy + 1)
next_day-within y doy h = elim (march_split doy (ground arith)) [
  | inl (lt, m, d) ↦ elim (dec_lt (month_of doy) 11) [
    | yes early ↦ next_day-same_month y _ _ early lt ∙ of_march_same y doy m d
    | no late ↦
        let (e, short) = february_days y doy h late in
        ap (λ k. next_day (from_march y k (day_of_month doy (month_of doy)))) e
        ∙ next_day-february y _ short
        ∙ ap (λ k. from_march y k (day_of_month doy (month_of doy) + 1)) (sym e)
        ∙ of_march_same y doy m d
  ]
  | inr (eq, m, d) ↦ elim (dec_lt (month_of doy) 11) [
    | yes early ↦ next_day-next_month y _ _ early eq ∙ of_march_next y doy m d
    | no late ↦ absurd (ground (arith, february_days y doy h late))
  ]
]

next_day-last :
    (y doy : ℕ)
    → doy + 1 ≡ (if is_leap (y + 1) then 366 else 365)
    → next_day (of_march y doy) ≡ of_march (y + 1) 0
unfolding from_march month_of day_of_month
next_day-last y doy h = ground arith

-- The date of the next day is the next date.
next_day-civil_from_days : (n : ℕ) → civil_from_days (n + 1) ≡ next_day (civil_from_days n)
unfolding civil_from_days
next_day-civil_from_days n =
    ap (λ k. of_march (march_year k) (march_day k)) shift
    ∙ sym (elim (march_next z) [
      | inl (same, day, lt) ↦
          next_day-within (march_year z) (march_day z)
            (within (march_year z) (march_day z) (march_bounds z).0 lt)
          ∙ sym (ap₂ of_march same day)
      | inr (next, day, first) ↦
          next_day-last (march_year z) (march_day z)
            (last (march_year z) (march_day z) (march_bounds z).0 first)
          ∙ sym (ap₂ of_march next day)
    ])
  where
    z : ℕ
    z = n + 719468

    shift : n + 1 + 719468 ≡ z + 1
    shift = omega arith

    within :
        (y d : ℕ)
        → year_start y + d ≡ z
        → z + 1 < year_start (y + 1)
        → d + 1 < (if is_leap (y + 1) then 366 else 365)
    within y d e lt = omega (arith, year_length y)

    last :
        (y d : ℕ)
        → year_start y + d ≡ z
        → z + 1 ≡ year_start (y + 1)
        → d + 1 ≡ (if is_leap (y + 1) then 366 else 365)
    last y d e first = omega (arith, year_length y)

-- `civil_from_days` counts days from the first of January 1970 in the Gregorian calendar.
pub civil_from_days-date_after : (n : ℕ) → civil_from_days n ≡ date_after n
unfolding date_after civil_from_days
civil_from_days-date_after zero = refl
civil_from_days-date_after (suc n) =
    ap civil_from_days (sym (add-one n))
    ∙ next_day-civil_from_days n
    ∙ ap next_day (civil_from_days-date_after n)

pub record IsDate (c : Civil) : Type 0 where
  pub month_in : (1 ≤ c.month) × (c.month ≤ 12)
  pub day_in : (1 ≤ c.day) × (c.day ≤ month_length c.year c.month)

next_day-IsDate : (c : Civil) → IsDate c → IsDate (next_day c)
next_day-IsDate c v = ground arith

date_after-IsDate : (n : ℕ) → IsDate (date_after n)
unfolding date_after
date_after-IsDate zero = omega arith
date_after-IsDate (suc n) = next_day-IsDate (date_after n) (date_after-IsDate n)

-- The date is one of the calendar.
pub civil_from_days-IsDate : (n : ℕ) → IsDate (civil_from_days n)
civil_from_days-IsDate n = subst IsDate (sym (civil_from_days-date_after n)) (date_after-IsDate n)
