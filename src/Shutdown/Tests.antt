-- ===== src/Shutdown/Tests.antt =====
-- Two workers, one of which outlives the limit.
use single_binary_static_web.Prelude.{ℕ, ◌≤◌, ◌≡◌, refl, List, [], ◌∷◌, Option, none, some}
use single_binary_static_web.Shutdown.{Outcome, wait_for_shutdown}
use single_binary_static_web.Shutdown.Bounds.{Ended, wait_for_shutdown-Ended}

abbrev handles : List (Option ℕ)
handles = some 100 ∷ some 9000 ∷ []

timed_out_wait :
    Ended handles (some 4000) 3000 (wait_for_shutdown handles (some 4000) 3000)
    × ((wait_for_shutdown handles (some 4000) 3000).at ≤ 3000)
timed_out_wait = wait_for_shutdown-Ended handles (some 4000) 3000

late_worker :
    wait_for_shutdown handles none 3000 ≡ record { outcome = Outcome.timed_out; at = 3000 }
unfolding wait_for_shutdown
late_worker = refl

interrupted_again :
    wait_for_shutdown handles (some 10) 3000 ≡ record { outcome = Outcome.forced; at = 10 }
unfolding wait_for_shutdown
interrupted_again = refl
