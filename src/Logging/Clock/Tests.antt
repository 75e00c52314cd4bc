-- ===== src/Logging/Clock/Tests.antt =====
-- A leap day, and the theorem at it.
use single_binary_static_web.Prelude.{◌≡◌, refl}
use single_binary_static_web.Logging.Clock.{civil, civil_from_days}
use single_binary_static_web.Logging.Clock.Calendar.{date_after, civil_from_days-date_after}

civil_from_days-date_after_example : civil_from_days 19782 ≡ date_after 19782
civil_from_days-date_after_example = civil_from_days-date_after 19782

leap_day : civil_from_days 19782 ≡ civil 2024 2 29
unfolding civil_from_days
leap_day = refl
