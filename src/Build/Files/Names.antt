-- ===== src/Build/Files/Names.antt =====
-- The constant prefixes and the URL paths of file names.
use single_binary_static_web.Prelude.{
  ℕ, ◌≤◌, ◌≡◌, ◌↔◌, ◌⊎◌, refl, inl, inr, false, List, [], ◌∷◌, map, Option, none, some, ◌>>=◌, All,
  Text, to_upper, get_elem?, Bool-cases, subst, some_inj, arith,
}
use single_binary_static_web.Build.Files.{
  underscored, starts_with_digit, file_to_const, url_paths_for_file, file_stem, extension,
  file_name, stem_extension,
}

-- The bytes of a file name of letters, digits and the characters that are replaced.
abbrev pub IsNameByte : ℕ → Type 0
IsNameByte c =
    ((b'a' ≤ c) × (c ≤ b'z'))
    ⊎ (((b'A' ≤ c) × (c ≤ b'Z'))
        ⊎ (((b'0' ≤ c) × (c ≤ b'9')) ⊎ ((c ≡ b'/') ⊎ ((c ≡ b'.') ⊎ ((c ≡ b'-') ⊎ (c ≡ b'_'))))))

-- The bytes of the constants' names: upper case, digits and the underscore.
abbrev pub IsConstByte : ℕ → Type 0
IsConstByte c = ((b'A' ≤ c) × (c ≤ b'Z')) ⊎ (((b'0' ≤ c) × (c ≤ b'9')) ⊎ (c ≡ b'_'))

const_byte : (c : ℕ) → IsNameByte c → IsConstByte (to_upper (underscored c))
const_byte c h = ground arith

const_bytes : (s : Text) → All IsNameByte s → All IsConstByte (map to_upper (map underscored s))
const_bytes [] h = tt
const_bytes (c ∷ s) (p, h) = (const_byte c p, const_bytes s h)

-- For a file name of letters, digits, `/`, `.`, `-` and `_` the prefix of its constants consists of
-- upper case letters, digits and underscores, and does not start with a digit.
pub file_to_const-IsConstByte :
    (filename : Text)
    → All IsNameByte filename
    → All IsConstByte (file_to_const filename)
      × (starts_with_digit (file_to_const filename) ≡ false)
unfolding file_to_const
file_to_const-IsConstByte filename h =
    elim (Bool-cases (starts_with_digit (map to_upper (map underscored filename)))) [
      | inl digit ↦ rw digit ((inl (omega arith), (inr (inr refl), const_bytes filename h)), refl)
      | inr other ↦ rw other (const_bytes filename h, other)
    ]

-- What both results of a file name give.
module _ (paths : Text → Text → List Text) where
  both_panic :
      (stem : Text) (ext : Option Text) → ((ext >>= λ e. some (paths stem e)) ≡ none) ↔ (ext ≡ none)
  both_panic stem none = ground arith
  both_panic stem (some e) = ground arith

  name_panics :
      (name : Option Text)
      → ((name >>= λ n. some (stem_extension n).0) >>= λ stem.
            (name >>= λ n. (stem_extension n).1) >>= λ e. some (paths stem e))
          ≡ none
        ↔ (name >>= λ n. (stem_extension n).1) ≡ none
  name_panics none = ground arith
  name_panics (some n) = both_panic (stem_extension n).0 (stem_extension n).1

  first_of_both :
      (stem : Option Text) (ext : Option Text) (first : Text) {ps : List Text}
      → ((s e : Text) → get_elem? (paths s e) 0 ≡ some first)
      → (stem >>= λ s. ext >>= λ e. some (paths s e)) ≡ some ps
      → get_elem? ps 0 ≡ some first
  first_of_both none ext first h e = cc
  first_of_both (some s) none first h e = cc
  first_of_both (some s) (some x) first h e =
      subst (λ l. get_elem? l 0 ≡ some first) (some_inj e) (h s x)

-- The URL paths of a file begin with a slash and its own name.
pub url_paths_for_file-first :
    (filename : Text) {paths : List Text}
    → url_paths_for_file filename ≡ some paths
    → get_elem? paths 0 ≡ some (b'/' ∷ filename)
unfolding url_paths_for_file
url_paths_for_file-first filename e =
    first_of_both _ (file_stem filename) (extension filename) (b'/' ∷ filename) (λ s x. refl) e

-- The paths of a file are computed without a panic exactly if its name has an extension.
pub url_paths_for_file-panics :
    (filename : Text) → (url_paths_for_file filename ≡ none) ↔ (extension filename ≡ none)
unfolding url_paths_for_file file_stem extension
url_paths_for_file-panics filename = name_panics _ (file_name filename)
