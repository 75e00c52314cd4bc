-- ===== src/Build/Module/Families.antt =====
-- Names that are made of a prefix and a suffix, and when none stands twice.
use mathlib.Core.List.{append_cancel_right}
use single_binary_static_web.Prelude.{
  Bool, true, false, ◌&&◌, ◌||◌, List, [], ◌∷◌, ◌++◌, map, ◌≡◌, ◌≢◌, refl, sym, ap, ◌∙◌, subst, any,
  append_assoc, append-nil, Bool-cases, inl, inr, All, Text, text_eq, text_eq_iff, ==_iff, arith,
}
use single_binary_static_web.Build.Pages.Apart.{differ, differ_comm, differ-append}
use single_binary_static_web.Build.Module.Meaning.{are_distinct}

unfoldable pub backwards : Text → Text
backwards [] = []
backwards (c ∷ s) = backwards s ++ c ∷ []

backwards-append : (s t : Text) → backwards (s ++ t) ≡ backwards t ++ backwards s
unfolding backwards
backwards-append [] t = sym (append-nil (backwards t))
backwards-append (c ∷ s) t =
    ap (λ r. r ++ c ∷ []) (backwards-append s t) ∙ append_assoc (backwards t) (backwards s) (c ∷ [])

differ_self : (s : Text) → differ s s ≡ false
unfolding differ
differ_self [] = refl
differ_self (c ∷ s) = ground (arith, differ_self s)

text_eq-false : (s t : Text) → s ≢ t → text_eq s t ≡ false
text_eq-false s t ne = elim (Bool-cases (text_eq s t)) [
  | inl same ↦ absurd (ne ((text_eq_iff s t).0 same))
  | inr other ↦ other
]

-- The suffixes are apart if they differ from the end on.
unfoldable pub ends_differ : Text → Text → Bool
unfolding differ backwards
ends_differ s t = differ (backwards s) (backwards t)

pub ends_differ-ne : (p q s t : Text) → ends_differ s t ≡ true → text_eq (p ++ s) (q ++ t) ≡ false
unfolding ends_differ
ends_differ-ne p q s t h = text_eq-false (p ++ s) (q ++ t) (λ e.
    let longer : differ (backwards s ++ backwards p) (backwards t ++ backwards q) ≡ true =
      differ-append (backwards s) (backwards p) _ (
        differ_comm (backwards s) (backwards t ++ backwards q)
        ∙ differ-append (backwards t) (backwards q) _
            (differ_comm (backwards t) (backwards s) ∙ h)) in
    let same : backwards s ++ backwards p ≡ backwards t ++ backwards q =
      sym (backwards-append p s) ∙ ap backwards e ∙ backwards-append q t in
    cc (
      subst (λ r. differ r (backwards t ++ backwards q) ≡ true) same longer,
      differ_self (backwards t ++ backwards q),
    ))

-- Two prefixes with suffixes that are the same or apart.
pub prefixes-ne :
    (p q s t : Text)
    → text_eq p q ≡ false
    → (text_eq s t || ends_differ s t) ≡ true
    → text_eq (p ++ s) (q ++ t) ≡ false
prefixes-ne p q s t other h = elim (Bool-cases (text_eq s t)) [
  | inl same ↦ text_eq-false (p ++ s) (q ++ t) (λ e.
      let same_end : p ++ t ≡ q ++ t = ap (λ r. p ++ r) (sym ((text_eq_iff s t).0 same)) ∙ e in
      cc ((text_eq_iff p q).1 (append_cancel_right p q t same_end), other))
  | inr apart ↦ ends_differ-ne p q s t (rw apart at h)
]

pub same_prefix : (p s t : Text) → text_eq (p ++ s) (p ++ t) ≡ text_eq s t
unfolding text_eq
same_prefix [] s t = refl
same_prefix (c ∷ p) s t = rw ((==_iff c c).1 refl) (same_prefix p s t)

abbrev pub every : (Text → Bool) → List Text → Bool
every f [] = true
every f (x ∷ xs) = f x && every f xs

abbrev pub In : List Text → Text → Type 0
In names s = any (text_eq s) names ≡ true

every-In :
    (f : Text → Bool) (names : List Text) (s : Text)
    → every f names ≡ true
    → In names s
    → f s ≡ true
every-In f [] s h i = absurd (cc)
every-In f (x ∷ names) s h i = elim (Bool-cases (text_eq s x)) [
  | inl same ↦ ap f ((text_eq_iff s x).0 same) ∙ ground arith
  | inr other ↦ every-In f names s (ground arith) (rw other at i)
]

-- The test holds of every pair.
abbrev pub pairs : (Text → Text → Bool) → List Text → List Text → Bool
pairs f names others = every (λ s. every (f s) others) names

pub pairs-In :
    (f : Text → Text → Bool) (names others : List Text) (s t : Text)
    → pairs f names others ≡ true
    → In names s
    → In others t
    → f s t ≡ true
pairs-In f names others s t h i j =
    every-In (f s) others t (every-In (λ s. every (f s) others) names s h i) j

pub any-append_false :
    (f : Text → Bool) (xs ys : List Text)
    → any f xs ≡ false
    → any f ys ≡ false
    → any f (xs ++ ys) ≡ false
any-append_false f [] ys h k = k
any-append_false f (x ∷ xs) ys h k = ground (arith, any-append_false f xs ys)

pub are_distinct-append :
    (xs ys : List Text)
    → are_distinct xs ≡ true
    → are_distinct ys ≡ true
    → All (λ x. any (text_eq x) ys ≡ false) xs
    → are_distinct (xs ++ ys) ≡ true
unfolding are_distinct
are_distinct-append [] ys h k d = k
are_distinct-append (x ∷ xs) ys h k (new, d) =
    let here : any (text_eq x) (xs ++ ys) ≡ false =
      any-append_false (text_eq x) xs ys (ground arith) new in
    rw here (are_distinct-append xs ys (ground arith) k d)

any-prefix :
    (p s : Text) (ss : List Text)
    → any (text_eq (p ++ s)) (map (λ t. p ++ t) ss) ≡ any (text_eq s) ss
any-prefix p s [] = refl
any-prefix p s (t ∷ ss) = rw (same_prefix p s t, any-prefix p s ss) refl

pub are_distinct-prefix :
    (p : Text) (ss : List Text) → are_distinct (map (λ t. p ++ t) ss) ≡ are_distinct ss
unfolding are_distinct
are_distinct-prefix p [] = refl
are_distinct-prefix p (s ∷ ss) = rw (any-prefix p s ss, are_distinct-prefix p ss) refl

-- Prefixes with their suffixes, and the names that they make.
abbrev pub Family : Type 0
Family = List (Text × List Text)

abbrev pub family : Family → List Text
family [] = []
family ((p, ss) ∷ rest) = map (λ s. p ++ s) ss ++ family rest

absent-map :
    (name q : Text) (ts : List Text)
    → All (λ t. text_eq name (q ++ t) ≡ false) ts
    → any (text_eq name) (map (λ t. q ++ t) ts) ≡ false
absent-map name q [] h = refl
absent-map name q (t ∷ ts) (other, h) = rw other (absent-map name q ts h)

pub absent-family :
    (name : Text) (fam : Family)
    → All (λ (e : Text × List Text). All (λ t. text_eq name (e.0 ++ t) ≡ false) e.1) fam
    → any (text_eq name) (family fam) ≡ false
absent-family name [] h = refl
absent-family name ((q, ts) ∷ rest) (here, h) =
    any-append_false (text_eq name) (map (λ t. q ++ t) ts) (family rest) (absent-map name q ts here)
      (absent-family name rest h)
