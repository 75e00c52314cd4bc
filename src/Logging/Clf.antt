-- ===== src/Logging/Clf.antt =====
-- `format_clf_time` and `format_clf_entry` of rust-server/src/logging.rs: a line in the Common Log
-- Format. The time since 1970 in seconds is an argument.
use mathlib.Core.Option
use single_binary_static_web.Prelude.{
  ℕ, zero, suc, ◌+◌, ◌-◌, ◌*◌, ◌/◌, ◌%◌, ◌<◌, ◌≤◌, ◌≡◌, ap, List, [], ◌∷◌, ◌++◌, Option, some,
  get_elem?, get_elem?-some, Text, codes, decimal, padded, arith,
}
use single_binary_static_web.Logging.{SocketAddr}
use single_binary_static_web.Logging.Clock.{civil_from_days}
use single_binary_static_web.Logging.Clock.Calendar.{civil_from_days-IsDate}

abbrev months : List Text
months =
    codes "Jan"
    ∷ codes "Feb"
    ∷ codes "Mar"
    ∷ codes "Apr"
    ∷ codes "May"
    ∷ codes "Jun"
    ∷ codes "Jul"
    ∷ codes "Aug"
    ∷ codes "Sep"
    ∷ codes "Oct"
    ∷ codes "Nov"
    ∷ codes "Dec"
    ∷ []

-- The time of the day.
pub hours : ℕ → ℕ
hours secs = secs % 86400 / 3600

pub minutes : ℕ → ℕ
minutes secs = secs % 86400 % 3600 / 60

pub seconds : ℕ → ℕ
seconds secs = secs % 86400 % 60

-- `MONTHS[(m - 1) as usize]`; `none` is the panic of an index out of bounds.
pub month_name : ℕ → Option Text
month_name m = get_elem? months (m - 1)

-- The two halves of the `format!`, about the name of the month.
unfoldable pub format_clf_time : ℕ → Option Text
unfolding padded hours minutes seconds month_name
format_clf_time secs =
    let c = civil_from_days (secs / 86400) in
    Option.map
      (λ name.
        padded 2 c.day
        ++ (codes "/"
            ++ (name
                ++ (codes "/"
                    ++ (padded 4 c.year
                        ++ (codes ":"
                            ++ (padded 2 (hours secs)
                                ++ (codes ":"
                                    ++ (padded 2 (minutes secs)
                                        ++ (codes ":"
                                            ++ (padded 2 (seconds secs) ++ codes " +0000")))))))))))
      (month_name c.month)

unfoldable pub format_clf_entry : SocketAddr → Text → Text → Text → ℕ → ℕ → ℕ → Option Text
unfolding decimal
format_clf_entry remote_addr method path protocol status size now =
    Option.map
      (λ time.
        remote_addr.ip
        ++ (codes " - - ["
            ++ (time
                ++ (codes "] \""
                    ++ (method
                        ++ (codes " "
                            ++ (path
                                ++ (codes " "
                                    ++ (protocol
                                        ++ (codes "\" "
                                            ++ (decimal status
                                                ++ (codes " " ++ decimal size))))))))))))
      (format_clf_time now)

-- The time of the day is in range, and its parts are those of the seconds since midnight.
pub time_of_day :
    (secs : ℕ)
    → (hours secs < 24)
      × (minutes secs < 60)
      × (seconds secs < 60)
      × (hours secs * 3600 + minutes secs * 60 + seconds secs ≡ secs % 86400)
unfolding hours minutes seconds
time_of_day secs = omega arith

month_name-some : (m : ℕ) → 1 ≤ m → m ≤ 12 → (name : Text) × (month_name m ≡ some name)
unfolding month_name
month_name-some zero h k = absurd (omega arith)
month_name-some (suc m) h k = get_elem?-some months (suc m - 1) (omega arith)

-- The time is printed for every number of seconds: the index into the months is in bounds.
pub format_clf_time-total : (secs : ℕ) → (t : Text) × (format_clf_time secs ≡ some t)
unfolding format_clf_time
format_clf_time-total secs =
    let v = (civil_from_days-IsDate (secs / 86400)).month_in in
    let (name, e) = month_name-some (civil_from_days (secs / 86400)).month v.0 v.1 in
    (_, ap (Option.map _) e)
