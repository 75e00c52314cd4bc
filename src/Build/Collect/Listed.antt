-- ===== src/Build/Collect/Listed.antt =====
-- The paths that the walk collects, and whether it panics.
use single_binary_static_web.Prelude.{
  ◌≡◌, refl, sym, ap, ◌∙◌, Bool, true, false, ◌&&◌, if◌then◌else◌, Bool-cases, inl, inr, List, [],
  ◌∷◌, ◌++◌, append_assoc, append-nil, none, some, unwrap_or, Text,
}
use single_binary_static_web.Build.Sorting.{sort}
use single_binary_static_web.Build.Collect.{
  Entry, file, dir, untyped, Entries, end, broken, entry, rel_path, walk_dir, walk_entry,
  collect_source_files,
}

-- The paths below a directory, each directory's after those of the entries before it.
unfoldable mutual
  pub paths : Entries → Text → List Text
  paths end prefix = []
  paths broken prefix = []
  paths (entry name e es) prefix = entry_paths e (rel_path prefix name) ++ paths es prefix

  pub entry_paths : Entry → Text → List Text
  entry_paths file path = path ∷ []
  entry_paths (dir es) path = paths es path
  entry_paths untyped path = []

-- Whether all directories and entries can be read.
unfoldable mutual
  pub is_readable : Entries → Bool
  is_readable end = true
  is_readable broken = false
  is_readable (entry name e es) = is_readable_entry e && is_readable es

  pub is_readable_entry : Entry → Bool
  is_readable_entry file = true
  is_readable_entry (dir es) = is_readable es
  is_readable_entry untyped = false

mutual
  unfolding walk_dir paths is_readable

  walk_dir-paths :
      (es : Entries) (prefix : Text) (files : List Text)
      → walk_dir es prefix files
        ≡ (if is_readable es then some (files ++ paths es prefix) else none)
  walk_dir-paths end prefix files = ap some (sym (append-nil files))
  walk_dir-paths broken prefix files = refl
  walk_dir-paths (entry name e es) prefix files =
      let path = rel_path prefix name in
      elim (Bool-cases (is_readable_entry e)) [
        | inl fine ↦
            let here : walk_entry e path files ≡ some (files ++ entry_paths e path) =
              walk_entry-paths e path files ∙ rw fine refl in
            rw (here, fine)
              (walk_dir-paths es prefix (files ++ entry_paths e path)
                ∙ ap (λ l. if is_readable es then some l else none)
                    (append_assoc files (entry_paths e path) (paths es prefix)))
        | inr bad ↦
            let here : walk_entry e path files ≡ none =
              walk_entry-paths e path files ∙ rw bad refl in
            rw (here, bad) refl
      ]

  walk_entry-paths :
      (e : Entry) (path : Text) (files : List Text)
      → walk_entry e path files
        ≡ (if is_readable_entry e then some (files ++ entry_paths e path) else none)
  walk_entry-paths file path files = refl
  walk_entry-paths (dir es) path files = walk_dir-paths es path files
  walk_entry-paths untyped path files = refl

-- The build gets the sorted paths if all can be read, and panics otherwise.
pub collect_source_files-paths :
    (es : Entries)
    → collect_source_files es ≡ (if is_readable es then some (sort (paths es [])) else none)
unfolding collect_source_files
collect_source_files-paths es = elim (Bool-cases (is_readable es)) [
  | inl fine ↦ rw (walk_dir-paths es [] [], fine) refl
  | inr bad ↦ rw (walk_dir-paths es [] [], bad) refl
]

pub collect_source_files-readable :
    (es : Entries) {files : List Text}
    → collect_source_files es ≡ some files
    → is_readable es ≡ true
collect_source_files-readable es made = elim (Bool-cases (is_readable es)) [
  | inl fine ↦ fine
  | inr bad ↦
      let panics : collect_source_files es ≡ none = collect_source_files-paths es ∙ rw bad refl in
      absurd (cc)
]

pub collect_source_files-some :
    (es : Entries)
    → is_readable es ≡ true
    → collect_source_files es ≡ some (unwrap_or (collect_source_files es) [])
collect_source_files-some es fine =
    let made : collect_source_files es ≡ some (sort (paths es [])) =
      collect_source_files-paths es ∙ rw fine refl in
    made ∙ ap (λ o. some (unwrap_or o [])) (sym made)
