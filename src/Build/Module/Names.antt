-- ===== src/Build/Module/Names.antt =====
-- When the names of families of prefixes and suffixes stand once each.
use single_binary_static_web.Prelude.{
  Bool, true, false, ◌||◌, List, [], ◌∷◌, ◌++◌, map, ◌≡◌, refl, ap, ◌∙◌, any, All, All-append,
  Bool-cases, inl, inr, Text, text_eq, text_eq_iff, arith,
}
use single_binary_static_web.Build.Module.Meaning.{are_distinct}
use single_binary_static_web.Build.Module.Families.{
  ends_differ, ends_differ-ne, prefixes-ne, In, pairs, pairs-In, are_distinct-append,
  are_distinct-prefix, Family, family, absent-family,
}

abbrev pub prefixes_of : Family → List Text
prefixes_of = map (λ (e : Text × List Text). e.0)

-- The suffixes of each prefix stand once each, and are of the list.
abbrev pub AreOf : List Text → Family → Type 0
AreOf names = All (λ (e : Text × List Text). (are_distinct e.1 ≡ true) × All (In names) e.1)

-- Suffixes that are the same or apart.
unfoldable pub same_or_apart : Text → Text → Bool
unfolding ends_differ text_eq
same_or_apart s t = text_eq s t || ends_differ s t

module _ (names : List Text) (table : pairs same_or_apart names names ≡ true) where
  absent-suffixes :
      (p s q : Text) (ts : List Text)
      → In names s
      → text_eq p q ≡ false
      → All (In names) ts
      → All (λ t. text_eq (p ++ s) (q ++ t) ≡ false) ts
  unfolding same_or_apart
  absent-suffixes p s q [] i ne h = tt
  absent-suffixes p s q (t ∷ ts) i ne (j, h) = (
    prefixes-ne p q s t ne (pairs-In same_or_apart names names s t table i j),
    absent-suffixes p s q ts i ne h,
  )

  absent-others :
      (p s : Text) (fam : Family)
      → In names s
      → any (text_eq p) (prefixes_of fam) ≡ false
      → AreOf names fam
      → All (λ (e : Text × List Text). All (λ t. text_eq (p ++ s) (e.0 ++ t) ≡ false) e.1) fam
  absent-others p s [] i new h = tt
  absent-others p s ((q, ts) ∷ fam) i new ((_, js), h) =
      (absent-suffixes p s q ts i (ground arith) js, absent-others p s fam i (ground arith) h)

  absent-each :
      (p : Text) (ss : List Text) (fam : Family)
      → All (In names) ss
      → any (text_eq p) (prefixes_of fam) ≡ false
      → AreOf names fam
      → All (λ x. any (text_eq x) (family fam) ≡ false) (map (λ s. p ++ s) ss)
  absent-each p [] fam i new h = tt
  absent-each p (s ∷ ss) fam (j, i) new h =
      (absent-family (p ++ s) fam (absent-others p s fam j new h), absent-each p ss fam i new h)

  -- Prefixes that stand once each make names that stand once each.
  pub family-distinct :
      (fam : Family)
      → AreOf names fam
      → are_distinct (prefixes_of fam) ≡ true
      → are_distinct (family fam) ≡ true
  unfolding are_distinct
  family-distinct [] h d = refl
  family-distinct ((p, ss) ∷ fam) ((once, i), h) d =
      are_distinct-append (map (λ s. p ++ s) ss) (family fam) (are_distinct-prefix p ss ∙ once)
        (family-distinct fam h (ground arith)) (absent-each p ss fam i (ground arith) h)

module _ (names others : List Text) (table : pairs ends_differ names others ≡ true) where
  apart-suffixes :
      (p s q : Text) (ts : List Text)
      → In names s
      → All (In others) ts
      → All (λ t. text_eq (p ++ s) (q ++ t) ≡ false) ts
  apart-suffixes p s q [] i h = tt
  apart-suffixes p s q (t ∷ ts) i (j, h) = (
    ends_differ-ne p q s t (pairs-In ends_differ names others s t table i j),
    apart-suffixes p s q ts i h,
  )

  apart-others :
      (p s : Text) (fam : Family)
      → In names s
      → AreOf others fam
      → All (λ (e : Text × List Text). All (λ t. text_eq (p ++ s) (e.0 ++ t) ≡ false) e.1) fam
  apart-others p s [] i h = tt
  apart-others p s ((q, ts) ∷ fam) i ((_, js), h) =
      (apart-suffixes p s q ts i js, apart-others p s fam i h)

  apart-each :
      (p : Text) (ss : List Text) (fam : Family)
      → All (In names) ss
      → AreOf others fam
      → All (λ x. any (text_eq x) (family fam) ≡ false) (map (λ s. p ++ s) ss)
  apart-each p [] fam i h = tt
  apart-each p (s ∷ ss) fam (j, i) h =
      (absent-family (p ++ s) fam (apart-others p s fam j h), apart-each p ss fam i h)

  -- Families with suffixes of two lists that are apart have no name in common.
  pub families-apart :
      (fam other : Family)
      → AreOf names fam
      → AreOf others other
      → All (λ x. any (text_eq x) (family other) ≡ false) (family fam)
  families-apart [] other h k = tt
  families-apart ((p, ss) ∷ fam) other ((_, i), h) k =
      All-append _ (map (λ s. p ++ s) ss) (family fam) (apart-each p ss other i k)
        (families-apart fam other h k)

-- Names that stand once each by a suffix have prefixes that do.
pub are_distinct-map :
    (f : Text → Text) (xs : List Text) → are_distinct (map f xs) ≡ true → are_distinct xs ≡ true
unfolding are_distinct
are_distinct-map f [] h = refl
are_distinct-map f (x ∷ xs) h =
    rw (absent x xs (ground arith)) (are_distinct-map f xs (ground arith))
  where
    absent :
        (x : Text) (xs : List Text)
        → any (text_eq (f x)) (map f xs) ≡ false
        → any (text_eq x) xs ≡ false
    absent x [] h = refl
    absent x (y ∷ xs) h = elim (Bool-cases (text_eq x y)) [
      | inl same ↦ absurd (
          let image : text_eq (f x) (f y) ≡ true =
            (text_eq_iff (f x) (f y)).1 (ap f ((text_eq_iff x y).0 same)) in
          ground arith)
      | inr other ↦ rw other (absent x xs (ground arith))
    ]

pub are_distinct-right :
    (xs ys : List Text) → are_distinct (xs ++ ys) ≡ true → are_distinct ys ≡ true
unfolding are_distinct
are_distinct-right [] ys h = h
are_distinct-right (x ∷ xs) ys h = are_distinct-right xs ys (ground arith)

pub are_distinct-left :
    (xs ys : List Text) → are_distinct (xs ++ ys) ≡ true → are_distinct xs ≡ true
unfolding are_distinct
are_distinct-left [] ys h = refl
are_distinct-left (x ∷ xs) ys h =
    rw (absent xs (ground arith)) (are_distinct-left xs ys (ground arith))
  where
    absent : (xs : List Text) → any (text_eq x) (xs ++ ys) ≡ false → any (text_eq x) xs ≡ false
    absent [] h = refl
    absent (y ∷ xs) h = ground (arith, absent xs)
