-- ===== src/Build/Files/Tests.antt =====
-- The names of some files, and a literal.
use single_binary_static_web.Prelude.{
  ◌≡◌, ◌↔◌, refl, false, [], ◌∷◌, none, some, All, Text, codes, arith,
}
use single_binary_static_web.Build.Files.{
  mime_for_file, hashed_filename, extension, file_to_const, url_paths_for_file, starts_with_digit,
}
use single_binary_static_web.Build.Files.Names.{
  IsConstByte, file_to_const-IsConstByte, url_paths_for_file-panics,
}
use single_binary_static_web.Build.Literal.{
  escape_byte_string, byte_string, byte_string-escape_byte_string,
}

byte_string-escape_byte_string_example :
    byte_string (escape_byte_string (34 ∷ 10 ∷ 200 ∷ 65 ∷ [])) ≡ some (34 ∷ 10 ∷ 200 ∷ 65 ∷ [])
byte_string-escape_byte_string_example =
    byte_string-escape_byte_string (34 ∷ 10 ∷ 200 ∷ 65 ∷ []) (omega arith)

abbrev digit_name : Text
digit_name = codes "4-a"

digit_name_const_bytes :
    All IsConstByte (file_to_const digit_name)
    × (starts_with_digit (file_to_const digit_name) ≡ false)
digit_name_const_bytes = file_to_const-IsConstByte digit_name (ground arith)

not_found_prefix : file_to_const (codes "404.html") ≡ codes "F_404_HTML"
unfolding file_to_const
not_found_prefix = refl

-- Two names with one prefix.
same_prefix : file_to_const (codes "a-b.js") ≡ file_to_const (codes "a_b.js")
unfolding file_to_const
same_prefix = refl

panics_without_extension :
    (url_paths_for_file (codes "LICENSE") ≡ none) ↔ (extension (codes "LICENSE") ≡ none)
panics_without_extension = url_paths_for_file-panics (codes "LICENSE")

no_extension : extension (codes "LICENSE") ≡ none
unfolding extension
no_extension = refl

-- The alias of a page in a folder is that of a page with its stem.
nested_alias :
    url_paths_for_file (codes "docs/about.html")
    ≡ some (codes "/docs/about.html" ∷ codes "/about" ∷ [])
unfolding url_paths_for_file
nested_alias = refl

hashed : hashed_filename (codes "img/a.svg") (codes "abc123def") ≡ some (codes "img/a.abc123de.svg")
unfolding hashed_filename
hashed = refl

png : mime_for_file (codes "img/logo.png") ≡ codes "image/png"
unfolding mime_for_file
png = refl
