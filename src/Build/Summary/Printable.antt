-- ===== src/Build/Summary/Printable.antt =====
-- Which names the summary of the build can print.
use single_binary_static_web.Prelude.{
  ℕ, ◌≤◌, ◌≡◌, ◌⊎◌, inl, inr, refl, ◌↔◌, true, false, List, [], ◌∷◌, ◌++◌, none, some, leb, length,
  take, get_elem?, All, Bool-cases, Option-cases, >>=-eq-some, Text, arith,
}
use single_binary_static_web.Formats.{F64, is_continuation}
use single_binary_static_web.Build.Summary.{Entry, Maps, entries, insert_entry, sorted_entries}
use single_binary_static_web.Build.Summary.Printed.{
  truncate_str, row_line, summary_row, summary_rows, table, if_any, print_build_summary,
}

-- A name is printed if it is short, or if its byte at 39 starts a character.
abbrev pub IsPrintable : Text → Type 0
IsPrintable s =
    (length s ≤ 40) ⊎ ((b : ℕ) × (get_elem? s 39 ≡ some b) × (is_continuation b ≡ false))

truncate_str-some : (s : Text) → ((t : Text) × (truncate_str s 40 ≡ some t)) ↔ IsPrintable s
unfolding truncate_str
truncate_str-some s = (there, back)
  where
    there : (t : Text) × (truncate_str s 40 ≡ some t) → IsPrintable s
    there (t, e) = elim (Bool-cases (leb (length s) 40)) [
      | inl short ↦ inl (ground (arith, short))
      | inr long ↦ elim (Option-cases (get_elem? s 39)) [
        | inl out ↦
            let panics : truncate_str s 40 ≡ none = rw (long, out) refl in absurd (cc (panics, e))
        | inr (b, at) ↦ elim (Bool-cases (is_continuation b)) [
          | inl inside ↦
              let panics : truncate_str s 40 ≡ none = rw (long, at, inside) refl in
              absurd (cc (panics, e))
          | inr starts ↦ inr (b, at, starts)
        ]
      ]
    ]

    back : IsPrintable s → (t : Text) × (truncate_str s 40 ≡ some t)
    back (inl short) =
        let fits : leb (length s) 40 ≡ true = ground (arith, short) in (s, rw fits refl)
    back (inr (b, at, starts)) = elim (Bool-cases (leb (length s) 40)) [
      | inl short ↦ (s, rw short refl)
      | inr long ↦ (take 39 s ++ (226 ∷ 128 ∷ 166 ∷ []), rw (long, at, starts) refl)
    ]

summary_row-some :
    (f : F64) (e : Entry) → ((row : Text) × (summary_row f e ≡ some row)) ↔ IsPrintable e.file
unfolding summary_row
summary_row-some f e = (
  λ (row, made).
      let (t, cut, _) = >>=-eq-some (truncate_str e.file 40) _ made in
      (truncate_str-some e.file).0 (t, cut),
  λ p. let (t, cut) = (truncate_str-some e.file).1 p in (row_line f e t, rw cut refl),
)

summary_rows-some :
    (f : F64) (es : List Entry)
    → ((rows : List Text) × (summary_rows f es ≡ some rows))
      ↔ All (λ (e : Entry). IsPrintable e.file) es
unfolding summary_rows
summary_rows-some f [] = (λ _. tt, λ _. ([], refl))
summary_rows-some f (e ∷ es) = (
  λ (rows, made).
      let (row, first, r) = >>=-eq-some (summary_row f e) _ made in
      let (later, rest, _) = >>=-eq-some (summary_rows f es) _ r in
      ((summary_row-some f e).0 (row, first), (summary_rows-some f es).0 (later, rest)),
  λ (p, ps).
      let (row, first) = (summary_row-some f e).1 p in
      let (later, rest) = (summary_rows-some f es).1 ps in (row ∷ later, rw (first, rest) refl),
)

module _ {ℓ} (P : Entry → Type ℓ) where
  All-insert_entry : (e : Entry) (es : List Entry) → All P (insert_entry e es) ↔ All P (e ∷ es)
  All-insert_entry e [] = (λ h. h, λ h. h)
  All-insert_entry e (f ∷ fs) = elim (Bool-cases (leb f.orig e.orig)) [
    | inl first ↦ rw first (λ h. h, λ h. h)
    | inr later ↦ rw later (
      λ (p, h). let (q, k) = (All-insert_entry e fs).0 h in (q, (p, k)),
      λ (q, (p, k)). (p, (All-insert_entry e fs).1 (q, k)),
    )
  ]

  All-sorted_entries : (es : List Entry) → All P (sorted_entries es) ↔ All P es
  unfolding sorted_entries
  All-sorted_entries [] = (λ h. h, λ h. h)
  All-sorted_entries (e ∷ es) = (
    λ h.
        let (p, k) = (All-insert_entry e (sorted_entries es)).0 h in
        (p, (All-sorted_entries es).0 k),
    λ (p, k). (All-insert_entry e (sorted_entries es)).1 (p, (All-sorted_entries es).1 k),
  )

if_any-some :
    (f : F64) (es : List Entry)
    → ((ls : List Text) × (if_any f es ≡ some ls)) ↔ All (λ (e : Entry). IsPrintable e.file) es
unfolding if_any
if_any-some f [] = (λ _. tt, λ _. ([], refl))
if_any-some f (e ∷ es) = (
  λ (ls, made).
      let (rows, r, _) = >>=-eq-some (summary_rows f (e ∷ es)) _ made in
      (summary_rows-some f (e ∷ es)).0 (rows, r),
  λ h. let (rows, r) = (summary_rows-some f (e ∷ es)).1 h in (table f (e ∷ es) rows, rw r refl),
)

-- The summary is printed exactly if the name of every file with all lengths can be shortened between
-- characters; otherwise it panics.
pub print_build_summary-some :
    (f : F64) (files : List Text) (maps : Maps)
    → ((ls : List Text) × (print_build_summary f files maps ≡ some ls))
      ↔ All (λ (e : Entry). IsPrintable e.file) (entries maps files)
unfolding print_build_summary
print_build_summary-some f files maps =
    let es = entries maps files in
    let printed = if_any-some f (sorted_entries es) in
    let sorted = All-sorted_entries (λ (e : Entry). IsPrintable e.file) es in
    (λ s. sorted.0 (printed.0 s), λ h. printed.1 (sorted.1 h))
