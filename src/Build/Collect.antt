-- ===== src/Build/Collect.antt =====
-- rust-server/build_helpers/collect.rs: the files below `public/`. A directory is the list of what
-- `read_dir` gives, in its order, which is the file system's; what cannot be read is a panic, `none`.
pub mod Listed
pub mod Found
use single_binary_static_web.Prelude.{
  List, [], ◌∷◌, ◌++◌, Option, none, some, ◌>>=◌, if◌then◌else◌, is_empty, Text,
}
use single_binary_static_web.Build.Sorting.{sort}

mutual
  -- A file, a directory, or an entry whose type cannot be read.
  pub data Entry : Type 0 where
    file : Entry
    dir : Entries → Entry
    untyped : Entry

  -- `broken` is the error of `read_dir`, or of the next entry.
  pub data Entries : Type 0 where
    end broken : Entries
    entry : Text → Entry → Entries → Entries

-- The path of an entry below `prefix`.
unfoldable pub rel_path : Text → Text → Text
rel_path prefix name = if is_empty prefix then name else prefix ++ (b'/' ∷ name)

-- `files` is what was pushed so far.
unfoldable mutual
  unfolding rel_path

  pub walk_dir : Entries → Text → List Text → Option (List Text)
  walk_dir end prefix files = some files
  walk_dir broken prefix files = none
  walk_dir (entry name e es) prefix files =
      walk_entry e (rel_path prefix name) files >>= λ pushed. walk_dir es prefix pushed

  pub walk_entry : Entry → Text → List Text → Option (List Text)
  walk_entry file path files = some (files ++ path ∷ [])
  walk_entry (dir es) path files = walk_dir es path files
  walk_entry untyped path files = none

unfoldable pub collect_source_files : Entries → Option (List Text)
unfolding walk_dir sort
collect_source_files public_dir = walk_dir public_dir [] [] >>= λ files. some (sort files)
