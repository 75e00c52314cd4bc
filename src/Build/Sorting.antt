-- ===== src/Build/Sorting.antt =====
-- `Vec<String>::sort`, which rust-server/build_helpers calls on file names (collect.rs) and on headers
-- (utils.rs). The standard library's sort is stable, and equal strings are the same bytes.
pub mod Laws
use single_binary_static_web.Prelude.{
  Bool, true, false, List, [], ◌∷◌, if◌then◌else◌, Text, ltb, ◌==◌,
}

-- `a <= b` on `String`, by bytes
unfoldable pub text_leb : Text → Text → Bool
text_leb [] t = true
text_leb (a ∷ s) [] = false
text_leb (a ∷ s) (b ∷ t) =
    let rest = text_leb s t in if ltb a b then true else if a == b then rest else false

unfoldable pub insert_sorted : Text → List Text → List Text
unfolding text_leb
insert_sorted x [] = x ∷ []
insert_sorted x (y ∷ ys) =
    let later = insert_sorted x ys in if text_leb x y then x ∷ y ∷ ys else y ∷ later

-- `parts.sort()`
unfoldable pub sort : List Text → List Text
unfolding insert_sorted
sort [] = []
sort (x ∷ xs) = insert_sorted x (sort xs)
