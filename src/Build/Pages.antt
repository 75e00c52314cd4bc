-- ===== src/Build/Pages.antt =====
-- What rust-server/build_helpers/html_sri_inject.rs puts into the text of a page, with the methods of
-- `str` that it calls.
pub mod Injected
pub mod Apart
pub mod Linked
pub mod References
use single_binary_static_web.Prelude.{
  ℕ, zero, suc, ◌-◌, Bool, true, false, List, [], ◌∷◌, ◌++◌, Option, none, some, if◌then◌else◌,
  length, take, drop, is_empty, Text, codes, starts_with,
}

-- `s.rfind(pat)`
unfoldable pub rfind : Text → Text → Option ℕ
unfolding starts_with
rfind [] pat = if is_empty pat then some 0 else none
rfind (c ∷ s) pat = elim (rfind s pat) [
  | some i ↦ some (suc i)
  | none ↦ if starts_with (c ∷ s) pat then some 0 else none
]

-- `s.replace(pat, rep)` for a pattern that is not empty; `inside` bytes of a match are left to skip.
unfoldable pub replace_from : Text → Text → ℕ → Text → Text
unfolding starts_with
replace_from pat rep inside [] = []
replace_from pat rep (suc inside) (c ∷ s) = replace_from pat rep inside s
replace_from pat rep zero (c ∷ s) =
    let found = rep ++ replace_from pat rep (length pat - 1) s in
    let passed = c ∷ replace_from pat rep zero s in
    if starts_with (c ∷ s) pat then found else passed

abbrev pub replace : Text → Text → Text → Text
replace s pat rep = replace_from pat rep zero s

-- The version-check script before the last `</body>`.
unfoldable pub inject_script : Text → Text → Text
unfolding rfind
inject_script version_script_tag raw_str = elim (rfind raw_str (codes "</body>")) [
  | none ↦ raw_str
  | some pos ↦ take pos raw_str ++ (version_script_tag ++ drop pos raw_str)
]

-- `{attr}="/{asset_file}"`
abbrev pub pattern_of : Text → Text → Text
pattern_of attr asset_file = attr ++ (codes "=\"/" ++ (asset_file ++ codes "\""))

abbrev pub integrity : Text → Text
integrity hash = codes " integrity=\"sha256-" ++ (hash ++ codes "\" crossorigin=\"anonymous\"")

abbrev pub replacement : Text → Text → Text → Text
replacement attr asset_file hash = pattern_of attr asset_file ++ integrity hash

-- Both attributes of one file.
unfoldable pub add_integrity : Text × Text → Text → Text
unfolding replace_from
add_integrity (asset_file, hash) raw_str =
    replace
      (replace raw_str (pattern_of (codes "href") asset_file)
        (replacement (codes "href") asset_file hash))
      (pattern_of (codes "src") asset_file) (replacement (codes "src") asset_file hash)

-- The loop over the hashes, in the order of the map's iterator.
unfoldable pub add_integrities : List (Text × Text) → Text → Text
unfolding add_integrity
add_integrities [] raw_str = raw_str
add_integrities (e ∷ file_hashes) raw_str = add_integrities file_hashes (add_integrity e raw_str)
