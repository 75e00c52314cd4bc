-- ===== src/Build/Collect/Found.antt =====
-- The files that are collected: all that are below the directory, sorted, whatever the order in which
-- the directories are listed.
use mathlib.Core.Logic.{∥∥₁_elim}
use mathlib.Core.Logic.Or
use mathlib.Core.List.{
  Perm, Mem, perm_append_comm, mem-append, mem-cons_self, mem-cons, not-mem-nil,
}
use mathlib.Core.List.Perm
use single_binary_static_web.Prelude.{
  ◌≡◌, refl, sym, ap₂, ◌∙◌, ◌↔◌, subst, Bool, true, ◌&&◌, if◌then◌else◌, List, [], ◌++◌,
  append_assoc, none, some, Text, arith,
}
use single_binary_static_web.Build.Sorting.{sort}
use single_binary_static_web.Build.Sorting.Laws.{sort-perm, sort-perm_eq, sort-IsSorted, IsSorted}
use single_binary_static_web.Build.Collect.{
  Entry, file, dir, untyped, Entries, end, broken, entry, rel_path, collect_source_files,
}
use single_binary_static_web.Build.Collect.Listed.{
  paths, entry_paths, is_readable, is_readable_entry, collect_source_files-paths,
}

-- Two listings of one directory tree: the entries of each directory in any order.
mutual
  pub data Relisted : Entries → Entries → Type 0 where
    none_left : Relisted end end
    both_broken : Relisted broken broken
    kept :
        {name : Text} {e f : Entry} {es fs : Entries}
        → SameEntry e f
        → Relisted es fs
        → Relisted (entry name e es) (entry name f fs)
    swapped :
        {n m : Text} {e f : Entry} {es : Entries}
        → Relisted (entry n e (entry m f es)) (entry m f (entry n e es))
    again : {es fs gs : Entries} → Relisted es fs → Relisted fs gs → Relisted es gs

  pub data SameEntry : Entry → Entry → Type 0 where
    same_file : SameEntry file file
    both_untyped : SameEntry untyped untyped
    same_dir : {es fs : Entries} → Relisted es fs → SameEntry (dir es) (dir fs)

mutual
  unfolding paths

  paths-perm :
      {es fs : Entries} (prefix : Text) → Relisted es fs → Perm (paths es prefix) (paths fs prefix)
  paths-perm prefix none_left = Perm.rfl
  paths-perm prefix both_broken = Perm.rfl
  paths-perm prefix (kept {name = name} {es = es} e r) =
      Perm.append (entry_paths-perm (rel_path prefix name) e) (paths-perm prefix r)
  paths-perm prefix (swapped {n = n} {m = m} {e = e} {f = f} {es = es}) =
      let a = entry_paths e (rel_path prefix n) in
      let b = entry_paths f (rel_path prefix m) in
      subst (λ l. Perm l (b ++ (a ++ paths es prefix))) (append_assoc a b (paths es prefix))
        (subst (λ l. Perm ((a ++ b) ++ paths es prefix) l) (append_assoc b a (paths es prefix))
          (Perm.append_right (paths es prefix) (perm_append_comm a b)))
  paths-perm prefix (again r s) = Perm.trans (paths-perm prefix r) (paths-perm prefix s)

  entry_paths-perm :
      {e f : Entry} (path : Text) → SameEntry e f → Perm (entry_paths e path) (entry_paths f path)
  entry_paths-perm path same_file = Perm.rfl
  entry_paths-perm path both_untyped = Perm.rfl
  entry_paths-perm path (same_dir r) = paths-perm path r

-- A file is below a directory, under its path.
mutual
  pub data IsFile : Entries → Text → Text → Type 0 where
    first :
        {name : Text} {e : Entry} {es : Entries} {prefix path : Text}
        → IsFileOf e (rel_path prefix name) path
        → IsFile (entry name e es) prefix path
    later :
        {name : Text} {e : Entry} {es : Entries} {prefix path : Text}
        → IsFile es prefix path
        → IsFile (entry name e es) prefix path

  pub data IsFileOf : Entry → Text → Text → Type 0 where
    itself : {path : Text} → IsFileOf file path path
    inside : {es : Entries} {at path : Text} → IsFile es at path → IsFileOf (dir es) at path

mutual
  unfolding paths

  mem-paths :
      {es : Entries} {prefix path : Text} → IsFile es prefix path → Mem path (paths es prefix)
  mem-paths (first {name = name} {e = e} {prefix = prefix} h) =
      mem-append.1 (Or.inl (mem-entry_paths h))
  mem-paths (later h) = mem-append.1 (Or.inr (mem-paths h))

  mem-entry_paths : {e : Entry} {at path : Text} → IsFileOf e at path → Mem path (entry_paths e at)
  mem-entry_paths itself = mem-cons_self
  mem-entry_paths (inside h) = mem-paths h

mutual
  unfolding paths

  paths-IsFile :
      (es : Entries) (prefix path : Text) → Mem path (paths es prefix) → ∥ IsFile es prefix path ∥₁
  paths-IsFile end prefix path m = absurd (not-mem-nil m)
  paths-IsFile broken prefix path m = absurd (not-mem-nil m)
  paths-IsFile (entry name e es) prefix path m =
      Or.elim (hlevel) (mem-append.0 m)
        (λ h.
          ∥∥₁_elim (entry_paths-IsFileOf e (rel_path prefix name) path h) (hlevel)
            (λ f. ∣ first f ∣₁))
        (λ h. ∥∥₁_elim (paths-IsFile es prefix path h) (hlevel) (λ f. ∣ later f ∣₁))

  entry_paths-IsFileOf :
      (e : Entry) (at path : Text) → Mem path (entry_paths e at) → ∥ IsFileOf e at path ∥₁
  entry_paths-IsFileOf file at path m =
      Or.elim (hlevel) (mem-cons.0 m) (λ e. ∣ subst (λ p. IsFileOf file at p) (sym e) itself ∣₁)
        (λ h. absurd (not-mem-nil h))
  entry_paths-IsFileOf untyped at path m = absurd (not-mem-nil m)
  entry_paths-IsFileOf (dir es) at path m =
      ∥∥₁_elim (paths-IsFile es at path m) (hlevel) (λ f. ∣ inside f ∣₁)

mutual
  unfolding is_readable

  is_readable-Relisted : {es fs : Entries} → Relisted es fs → is_readable es ≡ is_readable fs
  is_readable-Relisted none_left = refl
  is_readable-Relisted both_broken = refl
  is_readable-Relisted (kept e r) = ap₂ ◌&&◌ (is_readable-SameEntry e) (is_readable-Relisted r)
  is_readable-Relisted (swapped {e = e} {f = f} {es = es}) = ground arith
  is_readable-Relisted (again r s) = is_readable-Relisted r ∙ is_readable-Relisted s

  is_readable-SameEntry : {e f : Entry} → SameEntry e f → is_readable_entry e ≡ is_readable_entry f
  is_readable-SameEntry same_file = refl
  is_readable-SameEntry both_untyped = refl
  is_readable-SameEntry (same_dir r) = is_readable-Relisted r

-- If every directory and every entry can be read, the files are collected without a panic; they are
-- then sorted, and are exactly the files below the directory.
pub collect_source_files-IsFile :
    (es : Entries)
    → is_readable es ≡ true
    → (files : List Text) × (collect_source_files es ≡ some files)
      × IsSorted files
      × ((path : Text) → Mem path files ↔ ∥ IsFile es [] path ∥₁)
collect_source_files-IsFile es fine = (
  sort (paths es []),
  collect_source_files-paths es ∙ rw fine refl,
  sort-IsSorted (paths es []),
  λ path. (
    λ m. paths-IsFile es [] path ((Perm.mem_iff (sort-perm _)).0 m),
    λ h. ∥∥₁_elim h (hlevel) (λ f. (Perm.mem_iff (sort-perm _)).1 (mem-paths f)),
  ),
)

-- The order in which directories are listed does not matter: the build sees the same list of files, or
-- panics in both cases.
pub collect_source_files-Relisted :
    {es fs : Entries} → Relisted es fs → collect_source_files es ≡ collect_source_files fs
unfolding collect_source_files
collect_source_files-Relisted {es} {fs} r =
    collect_source_files-paths es
    ∙ ap₂ (λ (b : Bool) (l : List Text). if b then some l else none) (is_readable-Relisted r)
        (sort-perm_eq (paths-perm [] r))
    ∙ sym (collect_source_files-paths fs)
