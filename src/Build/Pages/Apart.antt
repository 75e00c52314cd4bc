-- ===== src/Build/Pages/Apart.antt =====
-- Replacing a pattern in a text, where the places of two texts cannot overlap.
use single_binary_static_web.Prelude.{
  ℕ, zero, suc, ◌-◌, Bool, true, false, ◌&&◌, [], ◌∷◌, ◌++◌, ◌≡◌, refl, sym, ap, ap₂, ◌∙◌, subst,
  length, if◌then◌else◌, ◌==◌, ==_iff, Text, starts_with, append_assoc, append-nil, inl, inr,
  Bool-cases, arith,
}
use single_binary_static_web.Build.Pages.{replace_from, replace}

-- The texts differ at a place that both have, so neither is the start of the other.
unfoldable pub differ : Text → Text → Bool
differ [] p = false
differ (a ∷ s) [] = false
differ (a ∷ s) (b ∷ p) = if a == b then differ s p else true

-- In `w ++ rest` no place of `w` starts `p` or the start of `p`, or is started by it.
unfoldable pub apart : (w rest p : Text) → Bool
unfolding differ
apart [] rest p = true
apart (x ∷ w) rest p = differ (x ∷ (w ++ rest)) p && apart w rest p

pub differ-starts_with : (s x p : Text) → differ s p ≡ true → starts_with (s ++ x) p ≡ false
unfolding differ starts_with
differ-starts_with [] x p h = absurd (cc)
differ-starts_with (a ∷ s) x [] h = absurd (cc)
differ-starts_with (a ∷ s) x (b ∷ p) h = ground (arith, differ-starts_with s x p)

pub differ_comm : (s p : Text) → differ s p ≡ differ p s
unfolding differ
differ_comm [] [] = refl
differ_comm [] (b ∷ p) = refl
differ_comm (a ∷ s) [] = refl
differ_comm (a ∷ s) (b ∷ p) = ground (arith, differ_comm s p)

pub differ-append : (s x p : Text) → differ s p ≡ true → differ (s ++ x) p ≡ true
unfolding differ
differ-append [] x p h = absurd (cc)
differ-append (a ∷ s) x [] h = absurd (cc)
differ-append (a ∷ s) x (b ∷ p) h = ground (arith, differ-append s x p)

pub apart-append :
    (w v rest p : Text)
    → apart w (v ++ rest) p ≡ true
    → apart v rest p ≡ true
    → apart (w ++ v) rest p ≡ true
unfolding apart
apart-append [] v rest p h k = k
apart-append (x ∷ w) v rest p h k =
    rw (append_assoc w v rest) (ground (arith, apart-append w v rest p))

module _ (c : ℕ) (p rep : Text) where
  abbrev pat : Text
  pat = c ∷ p

  replace-skips :
      (w s : Text) → replace_from pat rep (length w) (w ++ s) ≡ replace_from pat rep zero s
  unfolding replace_from
  replace-skips [] s = refl
  replace-skips (x ∷ w) s = replace-skips w s

  starts_with_self : (w s : Text) → starts_with (w ++ s) w ≡ true
  unfolding starts_with
  starts_with_self [] [] = refl
  starts_with_self [] (x ∷ s) = refl
  starts_with_self (x ∷ w) s = rw ((==_iff x x).1 refl) (starts_with_self w s)

  -- The pattern itself is replaced.
  pub replace-pattern : (s : Text) → replace (pat ++ s) pat rep ≡ rep ++ replace s pat rep
  unfolding replace_from
  replace-pattern s =
      let e : suc (length p) - 1 ≡ length p = omega arith in
      rw (starts_with_self pat s, e) (ap (λ t. rep ++ t) (replace-skips p s))

  pub replace-other :
      (x : ℕ) (s : Text)
      → starts_with (x ∷ s) pat ≡ false
      → replace (x ∷ s) pat rep ≡ x ∷ replace s pat rep
  unfolding replace_from
  replace-other x s h = rw h refl

  -- What is apart from the pattern is left as it is.
  pub replace-apart :
      (w s : Text) → apart w [] pat ≡ true → replace (w ++ s) pat rep ≡ w ++ replace s pat rep
  unfolding apart
  replace-apart [] s h = refl
  replace-apart (x ∷ w) s h =
      let here : starts_with ((x ∷ (w ++ [])) ++ s) pat ≡ false =
        differ-starts_with (x ∷ (w ++ [])) s pat (ground arith) in
      replace-other x (w ++ s)
        (subst (λ t. starts_with ((x ∷ t) ++ s) pat ≡ false) (append-nil w) here)
      ∙ ap (λ t. x ∷ t) (replace-apart w s (ground arith))

pub starts_with-append : (s p : Text) → starts_with s p ≡ true → (rest : Text) × (s ≡ p ++ rest)
unfolding starts_with
starts_with-append s [] h = (s, refl)
starts_with-append [] (b ∷ p) h = absurd (cc)
starts_with-append (a ∷ s) (b ∷ p) h =
    let (rest, e) = starts_with-append s p (ground (arith, h)) in
    (rest, ap₂ ◌∷◌ (ground (arith, h)) e)

-- A text that is apart from the pattern starts no place of the result where it did not start one
-- before, if the pattern stays in front of what is added.
pub replace-starts_with :
    (c : ℕ) (p added q s : Text)
    → apart q [] (c ∷ p) ≡ true
    → starts_with s q ≡ false
    → starts_with (replace s (c ∷ p) ((c ∷ p) ++ added)) q ≡ false
unfolding starts_with apart
replace-starts_with c p added [] s h k = absurd (cc)
replace-starts_with c p added (d ∷ q) [] h k = unfold replace_from in k
replace-starts_with c p added (d ∷ q) (x ∷ s) h k =
    elim (Bool-cases (starts_with (x ∷ s) (c ∷ p))) [
      | inl found ↦
          let (rest, e) = starts_with-append (x ∷ s) (c ∷ p) found in
          let result = replace-pattern c p ((c ∷ p) ++ added) rest in
          let ahead : differ (c ∷ p) (d ∷ q) ≡ true =
            differ_comm (c ∷ p) (d ∷ q)
            ∙ subst (λ t. differ (d ∷ t) (c ∷ p) ≡ true) (append-nil q) (ground arith) in
          subst (λ t. starts_with t (d ∷ q) ≡ false)
            (sym (
              ap (λ t. replace t (c ∷ p) ((c ∷ p) ++ added)) e
              ∙ result
              ∙ append_assoc (c ∷ p) added _))
            (differ-starts_with (c ∷ p) _ (d ∷ q) ahead)
      | inr other ↦
          subst (λ t. starts_with t (d ∷ q) ≡ false)
            (sym (replace-other c p ((c ∷ p) ++ added) x s other))
            (ground (arith, replace-starts_with c p added q s))
    ]
