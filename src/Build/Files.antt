-- ===== src/Build/Files.antt =====
-- The names of a file in rust-server/build_helpers/utils.rs: its extension and MIME type, the prefix
-- of its constants, its URL paths and its hashed name. `none` is the panic of an `unwrap`.
pub mod Names
mod Tests
use single_binary_static_web.Prelude.{
  ℕ, zero, suc, ◌-◌, min, Bool, true, false, ◌&&◌, ◌||◌, not, List, [], ◌∷◌, ◌++◌, map, Option,
  none, some, ◌>>=◌, unwrap_or, if◌then◌else◌, is_empty, filter, any, take, length, ◌==◌, leb, Text,
  codes, text_eq, split_on, join, to_uppercase,
}

-- `rsplit_once` at a byte
pub rsplit_once : ℕ → Text → Option (Text × Text)
rsplit_once sep [] = none
rsplit_once sep (c ∷ s) = elim (rsplit_once sep s) [
  | some (a, b) ↦ some (c ∷ a, b)
  | none ↦ if c == sep then some ([], s) else none
]

abbrev last_of : Option Text → List Text → Option Text
last_of found [] = found
last_of found (p ∷ ps) = last_of (some p) ps

abbrev is_component : Text → Bool
unfolding text_eq
is_component p = not (is_empty p || text_eq p (codes "."))

abbrev unless_parent : Option Text → Option Text
unfolding text_eq
unless_parent none = none
unless_parent (some name) = if text_eq name (codes "..") then none else some name

-- `Path::file_name`: the last component that is neither empty nor `.`, unless it is `..`.
pub file_name : Text → Option Text
unfolding split_on text_eq
file_name path = unless_parent (last_of none (filter is_component (split_on b'/' path)))

-- The stem and the extension of a file name; a dot in front does not count.
pub stem_extension : Text → Text × Option Text
unfolding rsplit_once
stem_extension name = elim (rsplit_once b'.' name) [
  | none ↦ (name, none)
  | some (stem, extension) ↦ if is_empty stem then (name, none) else (stem, some extension)
]

-- `Path::file_stem` and `Path::extension`
pub file_stem : Text → Option Text
unfolding file_name stem_extension
file_stem path = file_name path >>= λ name. some (stem_extension name).0

unfoldable pub extension : Text → Option Text
unfolding file_name stem_extension
extension path = file_name path >>= λ name. (stem_extension name).1

-- The arms of the `match`, in their order.
abbrev mime_types : List (List Text × Text)
mime_types =
    (codes "html" ∷ [], codes "text/html; charset=utf-8")
    ∷ (codes "css" ∷ [], codes "text/css; charset=utf-8")
    ∷ (codes "js" ∷ codes "mjs" ∷ [], codes "text/javascript; charset=utf-8")
    ∷ (codes "json" ∷ [], codes "application/json")
    ∷ (codes "xml" ∷ [], codes "application/xml")
    ∷ (codes "txt" ∷ [], codes "text/plain; charset=utf-8")
    ∷ (codes "csv" ∷ [], codes "text/csv; charset=utf-8")
    ∷ (codes "svg" ∷ [], codes "image/svg+xml")
    ∷ (codes "png" ∷ [], codes "image/png")
    ∷ (codes "jpg" ∷ codes "jpeg" ∷ [], codes "image/jpeg")
    ∷ (codes "gif" ∷ [], codes "image/gif")
    ∷ (codes "webp" ∷ [], codes "image/webp")
    ∷ (codes "ico" ∷ [], codes "image/x-icon")
    ∷ (codes "avif" ∷ [], codes "image/avif")
    ∷ (codes "woff" ∷ [], codes "font/woff")
    ∷ (codes "woff2" ∷ [], codes "font/woff2")
    ∷ (codes "ttf" ∷ [], codes "font/ttf")
    ∷ (codes "otf" ∷ [], codes "font/otf")
    ∷ (codes "wasm" ∷ [], codes "application/wasm")
    ∷ (codes "pdf" ∷ [], codes "application/pdf")
    ∷ (codes "mp4" ∷ [], codes "video/mp4")
    ∷ (codes "webm" ∷ [], codes "video/webm")
    ∷ (codes "mp3" ∷ [], codes "audio/mpeg")
    ∷ (codes "ogg" ∷ [], codes "audio/ogg")
    ∷ []

abbrev first_match : Text → List (List Text × Text) → Option Text
unfolding text_eq
first_match ext [] = none
first_match ext ((names, mime) ∷ arms) =
    if any (text_eq ext) names then some mime else first_match ext arms

unfoldable pub mime_for_file : Text → Text
unfolding extension text_eq
mime_for_file filename =
    unwrap_or (extension filename >>= λ ext. first_match ext mime_types)
      (codes "application/octet-stream")

-- `replace('/', "_").replace('.', "_").replace('-', "_")`
abbrev underscored : ℕ → ℕ
underscored c = if c == b'/' || (c == b'.' || c == b'-') then b'_' else c

abbrev pub starts_with_digit : Text → Bool
starts_with_digit [] = false
starts_with_digit (c ∷ s) = leb b'0' c && leb c b'9'

unfoldable pub file_to_const : Text → Text
file_to_const filename =
    let s = to_uppercase (map underscored filename) in
    if starts_with_digit s then b'F' ∷ b'_' ∷ s else s

unfoldable pub url_paths_for_file : Text → Option (List Text)
unfolding file_stem extension text_eq
url_paths_for_file filename = do
  stem ← file_stem filename
  ext ← extension filename
  some (
      (b'/' ∷ filename)
      ∷ (if text_eq ext (codes "html")
          then (if text_eq stem (codes "index") then codes "/" else b'/' ∷ stem) ∷ []
          else []))

-- `Path::parent` of a relative path: what is before the last slash
abbrev parent : Text → Text
unfolding rsplit_once
parent path = elim (rsplit_once b'/' path) [ none ↦ [] | some (p, name) ↦ p ]

unfoldable pub hashed_filename : Text → Text → Option Text
unfolding file_stem extension parent
hashed_filename filename hex_hash = do
  stem ← file_stem filename
  ext ← extension filename
  let hashed = stem ++ (b'.' ∷ take (min 8 (length hex_hash)) hex_hash ++ b'.' ∷ ext) in
      some (if is_empty (parent filename) then hashed else parent filename ++ b'/' ∷ hashed)
