-- ===== src/Shutdown/Bounds.antt =====
-- When the shutdown ends, and what has ended then.
use single_binary_static_web.Prelude.{
  ℕ, max, ◌≤◌, ◌≡◌, inl, inr, refl, sym, ◌∙◌, true, false, List, [], ◌∷◌, Option, none, some, leb,
  ltb, All, Bool-cases, Option-cases, some_inj, arith,
}
use single_binary_static_web.Shutdown.{
  clean, timed_out, forced, Shutdown, drain_future, timeout, wait_for_shutdown,
}

-- The handle has ended by that time.
abbrev pub EndsBy : ℕ → Option ℕ → Type 0
EndsBy t none = ⊥
EndsBy t (some end) = end ≤ t

drain_future-All :
    (handles : List (Option ℕ)) (now : ℕ) {t : ℕ}
    → drain_future now handles ≡ some t
    → (now ≤ t) × All (EndsBy t) handles
unfolding drain_future
drain_future-All [] now h = (omega (arith, some_inj h), tt)
drain_future-All (none ∷ handles) now h = absurd (cc)
drain_future-All (some end ∷ handles) now {t = t} h =
    let (later, ended) = drain_future-All handles (max now end) {t = t} h in
    (omega arith, (omega arith, ended))

All-drain_future :
    (handles : List (Option ℕ)) (now limit : ℕ)
    → now ≤ limit
    → All (EndsBy limit) handles
    → (t : ℕ) × (drain_future now handles ≡ some t) × (t ≤ limit)
unfolding drain_future
All-drain_future [] now limit h ended = (now, refl, h)
All-drain_future (none ∷ handles) now limit h (e, ended) = absurd e
All-drain_future (some end ∷ handles) now limit h (e, ended) =
    All-drain_future handles (max now end) limit (omega arith) ended

-- How the shutdown of these handles ended: with all of them, or at the limit with one of them
-- running, or at a second interrupt before either.
pub data Ended (handles : List (Option ℕ)) (second : Option ℕ) (limit : ℕ) (s : Shutdown)
    : Type 0 where
  all_ended : s.outcome ≡ clean → All (EndsBy s.at) handles → Ended handles second limit s
  one_runs :
      s.outcome ≡ timed_out
      → s.at ≡ limit
      → (All (EndsBy limit) handles → ⊥)
      → Ended handles second limit s
  interrupted : s.outcome ≡ forced → second ≡ some s.at → Ended handles second limit s

never_ends : {t : ℕ} → none ≡ some t → ⊥
never_ends h = cc

some_above : {u t limit : ℕ} → u ≡ t → u ≤ limit → leb t limit ≡ false → ⊥
some_above e low large = ground arith

before_bound : {a b c : ℕ} → ltb a b ≡ true → b ≤ c → a ≤ c
before_bound h k = ground arith

timeout-Ended :
    (handles : List (Option ℕ)) (second : Option ℕ) (limit : ℕ)
    → Ended handles second limit (timeout limit (drain_future 0 handles))
      × ((timeout limit (drain_future 0 handles)).at ≤ limit)
timeout-Ended handles second limit = elim (Option-cases (drain_future 0 handles)) [
  | inl never ↦
      let late : All (EndsBy limit) handles → ⊥ = λ h.
        let (t, made, small) = All-drain_future handles 0 limit (omega arith) h in
        never_ends (sym never ∙ made) in
      rw never (one_runs refl refl late, omega arith)
  | inr (t, made) ↦ elim (Bool-cases (leb t limit)) [
    | inl small ↦
        rw (made, small) (all_ended refl (drain_future-All handles 0 made).1, ground (arith, small))
    | inr large ↦
        let late : All (EndsBy limit) handles → ⊥ = λ h.
          let (u, made', low) = All-drain_future handles 0 limit (omega arith) h in
          some_above (some_inj (sym made' ∙ made)) low large in
        rw (made, large) (one_runs refl refl late, omega arith)
  ]
]

-- The wait ends by the limit, whatever the workers do: with all of them ended, or at the limit with
-- one of them running, or at a second interrupt.
pub wait_for_shutdown-Ended :
    (handles : List (Option ℕ)) (second : Option ℕ) (limit : ℕ)
    → Ended handles second limit (wait_for_shutdown handles second limit)
      × ((wait_for_shutdown handles second limit).at ≤ limit)
unfolding wait_for_shutdown
wait_for_shutdown-Ended handles none limit = timeout-Ended handles none limit
wait_for_shutdown-Ended handles (some second) limit =
    let s = timeout limit (drain_future 0 handles) in
    let (how, bound) = timeout-Ended handles (some second) limit in
    elim (Bool-cases (ltb second s.at)) [
      | inl before ↦ rw before (interrupted refl refl, before_bound before bound)
      | inr after ↦ rw after (how, bound)
    ]
