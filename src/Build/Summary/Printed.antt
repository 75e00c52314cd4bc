-- ===== src/Build/Summary/Printed.antt =====
-- The lines of `print_build_summary`, and `truncate_str`, of rust-server/build_helpers/mod.rs.
use single_binary_static_web.Prelude.{
  ℕ, ◌-◌, List, [], ◌∷◌, ◌++◌, Option, none, some, ◌>>=◌, if◌then◌else◌, leb, ltb, length, take,
  get_elem?, map, Text, codes,
}
use single_binary_static_web.Formats.{
  F64, format_bytes, is_continuation, left_aligned, right_aligned, repeated,
}
use single_binary_static_web.Build.Summary.{
  Entry, Maps, Totals, entries, sorted_entries, best, totals,
}

-- `&s[..end]` for an end inside the text: a panic if a character goes across it.
abbrev prefix_at : ℕ → Text → Option ℕ → Option Text
prefix_at end s none = none
prefix_at end s (some b) = if is_continuation b then none else some (take end s)

abbrev pub prefix : ℕ → Text → Option Text
prefix end s = prefix_at end s (get_elem? s end)

-- The three bytes are those of the ellipsis.
unfoldable pub truncate_str : Text → ℕ → Option Text
truncate_str s max_len =
    let cut = prefix (max_len - 1) s >>= λ t. some (t ++ (226 ∷ 128 ∷ 166 ∷ [])) in
    if leb (length s) max_len then some s else cut

abbrev aligned_cells : List Text → Text
unfolding right_aligned
aligned_cells [] = []
aligned_cells (s ∷ ss) = codes " " ++ (right_aligned 10 s ++ aligned_cells ss)

abbrev cells : F64 → List ℕ → Text
unfolding format_bytes aligned_cells
cells f ns = aligned_cells (map (format_bytes f) ns)

abbrev pub row_line : F64 → Entry → Text → Text
unfolding left_aligned right_aligned format_bytes best cells
row_line f e file =
    let (size, best_label) = best e in
    left_aligned 40 file
    ++ (cells f (e.orig ∷ e.uncomp ∷ e.gz ∷ e.br ∷ e.zst ∷ [])
        ++ (codes " " ++ (right_aligned 9 (format_bytes f size) ++ (codes " " ++ best_label))))

-- A line of the table.
unfoldable pub summary_row : F64 → Entry → Option Text
unfolding truncate_str row_line
summary_row f e = do file ← truncate_str e.file 40; some (row_line f e file)

unfoldable pub summary_rows : F64 → List Entry → Option (List Text)
unfolding summary_row
summary_rows f [] = some []
summary_rows f (e ∷ es) = do row ← summary_row f e; rows ← summary_rows f es; some (row ∷ rows)

abbrev overall_ratio : F64 → Totals → ℕ
overall_ratio f t =
    if ltb 0 t.total_orig
    then f.percent (f.of_usize t.total_best) (f.of_usize t.total_orig)
    else f.hundred

abbrev total_row : F64 → Totals → Text
unfolding left_aligned format_bytes aligned_cells
total_row f t =
    left_aligned 40 (codes "TOTAL")
    ++ aligned_cells (
        format_bytes f t.total_orig
        ∷ []
        ∷ map (format_bytes f) (t.total_gz ∷ t.total_br ∷ t.total_zst ∷ t.total_best ∷ []))

abbrev header_row : Text
unfolding left_aligned aligned_cells
header_row =
    left_aligned 40 (codes "File")
    ++ aligned_cells (
        codes "Original"
        ∷ codes "Minified"
        ∷ codes "Gzip"
        ∷ codes "Brotli"
        ∷ codes "Zstd"
        ∷ codes "Best"
        ∷ [])

abbrev pub table : F64 → List Entry → List Text → List Text
unfolding header_row total_row totals
table f es rows =
    []
    ∷ codes "========== Build Summary =========="
    ∷ header_row
    ∷ repeated b'-' 106
    ∷ (rows
        ++ repeated b'-' 106
          ∷ total_row f (totals es)
          ∷ (codes "Overall compression: "
              ++ (f.display (overall_ratio f (totals es)) ++ codes "% of original"))
          ∷ codes "===================================="
          ∷ []
          ∷ [])

unfoldable pub if_any : F64 → List Entry → Option (List Text)
unfolding summary_rows table
if_any f [] = some []
if_any f (e ∷ es) = do rows ← summary_rows f (e ∷ es); some (table f (e ∷ es) rows)

-- The lines, or the panic of `truncate_str`. `is_empty` is asked before the sort, which keeps it.
unfoldable pub print_build_summary : F64 → List Text → Maps → Option (List Text)
unfolding entries sorted_entries if_any
print_build_summary f files maps = if_any f (sorted_entries (entries maps files))
