-- ===== src/Build/Sorting/Laws.antt =====
-- Sorted texts: the order by bytes is total, and a list of texts has one sorted rearrangement.
use mathlib.Core.Logic.{∥∥₁_elim}
use mathlib.Core.List.{Perm, Permᴰ}
use mathlib.Core.List.Perm
use native.Mathlib.Nat.{ℕ_set}
use single_binary_static_web.Prelude.{
  ap₂, ◌≡◌, refl, ◌∙◌, true, false, inl, inr, List, [], ◌∷◌, Bool-cases, arith, Text, All,
}
use single_binary_static_web.Build.Sorting.{text_leb, insert_sorted, sort}

Texts-set : IsSet (List Text)
Texts-set = hlevel ℕ_set

text_leb_total : (s t : Text) → text_leb s t ≡ false → text_leb t s ≡ true
unfolding text_leb
text_leb_total [] t h = cc
text_leb_total (a ∷ s) [] h = refl
text_leb_total (a ∷ s) (b ∷ t) h = ground (arith, text_leb_total s t)

text_leb_antisymm : (s t : Text) → text_leb s t ≡ true → text_leb t s ≡ true → s ≡ t
unfolding text_leb
text_leb_antisymm [] [] h k = refl
text_leb_antisymm [] (b ∷ t) h k = cc
text_leb_antisymm (a ∷ s) [] h k = cc
text_leb_antisymm (a ∷ s) (b ∷ t) h k = ground (arith, text_leb_antisymm s t)

text_leb_trans : (s t u : Text) → text_leb s t ≡ true → text_leb t u ≡ true → text_leb s u ≡ true
unfolding text_leb
text_leb_trans [] t u h k = refl
text_leb_trans (a ∷ s) [] u h k = cc
text_leb_trans (a ∷ s) (b ∷ t) [] h k = cc
text_leb_trans (a ∷ s) (b ∷ t) (c ∷ u) h k = ground (arith, text_leb_trans s t u)

insert_sorted_comm :
    (x y : Text) (l : List Text)
    → insert_sorted x (insert_sorted y l) ≡ insert_sorted y (insert_sorted x l)
unfolding insert_sorted
insert_sorted_comm x y [] =
    ground (arith, text_leb_total x y, text_leb_total y x, text_leb_antisymm x y)
insert_sorted_comm x y (z ∷ l) = ground (
  arith,
  text_leb_total x y,
  text_leb_total y x,
  text_leb_antisymm x y,
  text_leb_trans x y z,
  text_leb_trans y x z,
  insert_sorted_comm x y l,
)

sort-Permᴰ : {xs ys : List Text} → Permᴰ xs ys → sort xs ≡ sort ys
unfolding sort
sort-Permᴰ Permᴰ.nil = refl
sort-Permᴰ (Permᴰ.cons {l₂ = ys} e d) = ap₂ insert_sorted e (sort-Permᴰ d)
sort-Permᴰ (Permᴰ.swap {b = b} {a' = a'} {l = l} e e') =
    insert_sorted_comm _ _ (sort l) ∙ ap₂ (λ x y. insert_sorted x (insert_sorted y (sort l))) e' e
sort-Permᴰ (Permᴰ.trans d d') = sort-Permᴰ d ∙ sort-Permᴰ d'

-- The order of the texts does not show in the sorted list.
pub sort-perm_eq : {xs ys : List Text} → Perm xs ys → sort xs ≡ sort ys
sort-perm_eq p = ∥∥₁_elim p (λ x y. Texts-set _ _ x y) sort-Permᴰ

insert_sorted-perm : (x : Text) (l : List Text) → Perm (insert_sorted x l) (x ∷ l)
unfolding insert_sorted
insert_sorted-perm x [] = Perm.rfl
insert_sorted-perm x (y ∷ l) = elim (Bool-cases (text_leb x y)) [
  | inl low ↦ rw low Perm.rfl
  | inr high ↦ rw high (Perm.trans (Perm.cons y (insert_sorted-perm x l)) (Perm.swap x y l))
]

pub sort-perm : (xs : List Text) → Perm (sort xs) xs
unfolding sort
sort-perm [] = Perm.rfl
sort-perm (x ∷ xs) = Perm.trans (insert_sorted-perm x (sort xs)) (Perm.cons x (sort-perm xs))

-- Each text is at most those after it.
abbrev pub IsSorted : List Text → Type 0
unfolding text_leb
IsSorted [] = Unit
IsSorted (x ∷ xs) = All (λ y. text_leb x y ≡ true) xs × IsSorted xs

All-insert_sorted {κ} :
    (P : Text → Type κ) (x : Text) (l : List Text) → P x → All P l → All P (insert_sorted x l)
unfolding insert_sorted
All-insert_sorted P x [] p h = (p, tt)
All-insert_sorted P x (y ∷ l) p (q, h) = elim (Bool-cases (text_leb x y)) [
  | inl low ↦ rw low (p, (q, h))
  | inr high ↦ rw high (q, All-insert_sorted P x l p h)
]

All-above :
    (x y : Text) (l : List Text)
    → text_leb x y ≡ true
    → All (λ z. text_leb y z ≡ true) l
    → All (λ z. text_leb x z ≡ true) l
All-above x y [] h a = tt
All-above x y (z ∷ l) h (p, a) = (text_leb_trans x y z h p, All-above x y l h a)

insert_sorted-IsSorted : (x : Text) (l : List Text) → IsSorted l → IsSorted (insert_sorted x l)
unfolding insert_sorted
insert_sorted-IsSorted x [] s = (tt, tt)
insert_sorted-IsSorted x (y ∷ l) (below, s) = elim (Bool-cases (text_leb x y)) [
  | inl low ↦ rw low ((low, All-above x y l low below), (below, s))
  | inr high ↦ rw high (
    All-insert_sorted (λ z. text_leb y z ≡ true) x l (text_leb_total x y high) below,
    insert_sorted-IsSorted x l s,
  )
]

pub sort-IsSorted : (xs : List Text) → IsSorted (sort xs)
unfolding sort
sort-IsSorted [] = tt
sort-IsSorted (x ∷ xs) = insert_sorted-IsSorted x (sort xs) (sort-IsSorted xs)

pub All-sort {κ} : (P : Text → Type κ) (xs : List Text) → All P xs → All P (sort xs)
unfolding sort
All-sort P [] h = tt
All-sort P (x ∷ xs) (p, h) = All-insert_sorted P x (sort xs) p (All-sort P xs h)
