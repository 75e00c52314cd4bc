-- ===== src/Build/Dedup/Keys.antt =====
-- The deduplication of header sets: what an index stands for.
use single_binary_static_web.Prelude.{
  ℕ, suc, ◌+◌, arith, ◌≡◌, refl, sym, subst, List, [], ◌∷◌, ◌++◌, some, get_elem?,
  get_elem?-append_left, get_elem?-append_length, All, Bool-cases, Option-cases, inl, inr, Text,
  text_eq, text_eq_iff, some_inj,
}
use single_binary_static_web.Asset.{Header}
use single_binary_static_web.Build.Dedup.{
  header_set_key, HeaderSets, lookup, intern, rebuilt, rebuild_index,
}

-- The set at an index has the key.
abbrev pub HasKey : List (List Header) → Text → ℕ → Type 0
HasKey sets key i = (set : List Header) × (get_elem? sets i ≡ some set) × (header_set_key set ≡ key)

-- Every entry of the index is the position of a set with its key.
abbrev pub IsIndexed : HeaderSets → Type 0
IsIndexed hs = All (λ (e : Text × ℕ). HasKey hs.sets e.0 e.1) hs.index

pub HasKey-append :
    (sets : List (List Header)) (headers : List Header) (key : Text) (i : ℕ)
    → HasKey sets key i
    → HasKey (sets ++ headers ∷ []) key i
HasKey-append sets headers key i (set, at, k) =
    (set, get_elem?-append_left sets (headers ∷ []) i at, k)

entries-append :
    (index : List (Text × ℕ)) (sets : List (List Header)) (headers : List Header)
    → All (λ (e : Text × ℕ). HasKey sets e.0 e.1) index
    → All (λ (e : Text × ℕ). HasKey (sets ++ headers ∷ []) e.0 e.1) index
entries-append [] sets headers h = tt
entries-append ((k, i) ∷ rest) sets headers (p, h) =
    (HasKey-append sets headers k i p, entries-append rest sets headers h)

lookup-HasKey :
    (key : Text) (index : List (Text × ℕ)) (sets : List (List Header)) (i : ℕ)
    → All (λ (e : Text × ℕ). HasKey sets e.0 e.1) index
    → lookup key index ≡ some i
    → HasKey sets key i
unfolding lookup
lookup-HasKey key [] sets i h e = absurd (cc)
lookup-HasKey key ((k, j) ∷ rest) sets i (p, h) e = elim (Bool-cases (text_eq key k)) [
  | inl same ↦
      subst (λ l. HasKey sets key l) (some_inj (rw same at e))
        (subst (λ x. HasKey sets x j) (sym ((text_eq_iff key k).0 same)) p)
  | inr other ↦ lookup-HasKey key rest sets i h (rw other at e)
]

-- `entry(key).or_insert_with(...)` gives the position of a set with the key of the headers, keeps
-- every set where it is, and leaves every entry of the index at a set with its key.
pub intern-HasKey :
    (headers : List Header) (hs : HeaderSets)
    → IsIndexed hs
    → HasKey (intern headers hs).1.sets (header_set_key headers) (intern headers hs).0
      × IsIndexed (intern headers hs).1
      × ((key : Text) (i : ℕ) → HasKey hs.sets key i → HasKey (intern headers hs).1.sets key i)
unfolding intern
intern-HasKey headers hs h = elim (Option-cases (lookup (header_set_key headers) hs.index)) [
  | inl new ↦ rw new (
    (headers, get_elem?-append_length hs.sets headers [], refl),
    (
      (headers, get_elem?-append_length hs.sets headers [], refl),
      entries-append hs.index hs.sets headers h,
    ),
    HasKey-append hs.sets headers,
  )
  | inr (i, old) ↦
      rw old (lookup-HasKey (header_set_key headers) hs.index hs.sets i h old, h, λ key j k. k)
]

rebuilt-IsIndexed :
    (sets all : List (List Header)) (i : ℕ) (index : List (Text × ℕ))
    → ((j : ℕ) (set : List Header) → get_elem? sets j ≡ some set → get_elem? all (j + i) ≡ some set)
    → All (λ (e : Text × ℕ). HasKey all e.0 e.1) index
    → All (λ (e : Text × ℕ). HasKey all e.0 e.1) (rebuilt i sets index)
unfolding rebuilt
rebuilt-IsIndexed [] all i index at h = h
rebuilt-IsIndexed (set ∷ sets) all i index at h =
    rebuilt-IsIndexed sets all (suc i) ((header_set_key set, i) ∷ index)
      (λ j s e. subst (λ n. get_elem? all n ≡ some s) (omega arith) (at (suc j) s e))
      ((set, subst (λ n. get_elem? all n ≡ some set) (omega arith) (at 0 set refl), refl), h)

-- The index that is made anew is right.
pub rebuild_index-IsIndexed : (sets : List (List Header)) → IsIndexed (rebuild_index sets)
unfolding rebuild_index
rebuild_index-IsIndexed sets =
    rebuilt-IsIndexed sets sets 0 []
      (λ j s e. subst (λ n. get_elem? sets n ≡ some s) (omega arith) e) tt
