-- ===== src/Build/Dedup.antt =====
-- The deduplication of header sets: `header_set_key` of rust-server/build_helpers/utils.rs, and the map
-- from keys to indices of asset_metadata.rs, version_headers.rs and not_found_headers.rs, as the list of
-- its entries.
pub mod Keys
pub mod Order
pub mod Embedded
use single_binary_static_web.Prelude.{
  ℕ, suc, max, Bool, true, false, List, [], ◌∷◌, ◌++◌, map, Option, none, some, ◌>>=◌, unwrap_or,
  if◌then◌else◌, length, Text, codes, text_eq, starts_with, join, ltb, ◌==◌,
}
use single_binary_static_web.Asset.{Header}
use single_binary_static_web.Build.Sorting.{sort}
use single_binary_static_web.Build.Codegen.{AssetGen}

unfoldable pub header_set_key : List Header → Text
unfolding sort join
header_set_key headers =
    join (codes "\n") (sort (map (λ (h : Header). h.0 ++ (b':' ∷ h.1)) headers))

-- The header sets and the index from keys to their positions.
pub record HeaderSets : Type 0 where
  pub sets : List (List Header)
  pub index : List (Text × ℕ)

pub lookup : Text → List (Text × ℕ) → Option ℕ
unfolding text_eq
lookup key [] = none
lookup key ((k, i) ∷ rest) = let later = lookup key rest in if text_eq key k then some i else later

abbrev at_entry : Option ℕ → List Header → HeaderSets → ℕ × HeaderSets
unfolding header_set_key
at_entry (some i) headers hs = (i, hs)
at_entry none headers hs =
    let i = length hs.sets in
    (i, record { sets = hs.sets ++ headers ∷ []; index = (header_set_key headers, i) ∷ hs.index })

-- `header_set_index.entry(key).or_insert_with(...)`
unfoldable pub intern : List Header → HeaderSets → ℕ × HeaderSets
unfolding header_set_key lookup at_entry
intern headers hs = at_entry (lookup (header_set_key headers) hs.index) headers hs

-- `header_set_index` made anew from the sets: an `insert` of each key, the last of a key counting.
abbrev pub rebuilt : ℕ → List (List Header) → List (Text × ℕ) → List (Text × ℕ)
unfolding header_set_key
rebuilt i [] index = index
rebuilt i (set ∷ sets) index = rebuilt (suc i) sets ((header_set_key set, i) ∷ index)

unfoldable pub rebuild_index : List (List Header) → HeaderSets
unfolding rebuilt
rebuild_index sets = record { sets = sets; index = rebuilt 0 sets [] }
