-- ===== src/Build/Passes/Total.antt =====
-- The passes end, with a body for every file, if every file can be read.
use single_binary_static_web.Prelude.{
  ◌≡◌, refl, true, false, List, [], ◌∷◌, Option, some, All, Bool-cases, inl, inr, Text,
}
use single_binary_static_web.Build.Processing.{Tools, minify_file}
use single_binary_static_web.Build.Passes.{
  raw_path, Outputs, store_file, is_html, compress_step, minify_compute_sha_and_compress,
  PageInputs, page_body, page_step, update_html_sri_and_inject_update_js,
}
use single_binary_static_web.Build.Passes.Stored.{store_file-some, store_file_self}

module _ (tools : Tools) (p : PageInputs) (source : Text → Option Text) where
  abbrev pub IsReadable : Text → Type 0
  IsReadable file = (raw : Text) × (source file ≡ some raw)

  abbrev pub HasBody : Outputs → Text → Type 0
  HasBody o file = (body : Text) × (o.out_dir (raw_path file) ≡ some body)

  -- A pass over files of one kind leaves those of the other: it ends, keeps every body, and makes one
  -- for each file of its kind.
  record Passed (kind : Text → Type 0) (files : List Text) (o o' : Outputs) : Type 0 where
    kept : (f : Text) → HasBody o f → HasBody o' f
    made : All (λ f. kind f → HasBody o' f) files

  compress_step_total :
      (file : Text) (o : Outputs)
      → IsReadable file
      → (o' : Outputs) × (compress_step tools source file o ≡ some o')
        × ((f : Text) → HasBody o f → HasBody o' f)
        × (is_html file ≡ false → HasBody o' file)
  unfolding compress_step
  compress_step_total file o (raw, read) = elim (Bool-cases (is_html file)) [
    | inl page ↦ (o, rw page refl, λ f h. h, λ plain. absurd (cc))
    | inr plain ↦
        let now = minify_file tools file raw in
        (
          store_file tools file raw now o,
          rw (plain, read) refl,
          λ f (body, at). store_file-some tools file raw now o f body at,
          λ h. (now, store_file_self tools file raw now o),
        )
  ]

  page_step_total :
      (file : Text) (o : Outputs)
      → IsReadable file
      → (o' : Outputs) × (page_step tools p source file o ≡ some o')
        × ((f : Text) → HasBody o f → HasBody o' f)
        × (is_html file ≡ true → HasBody o' file)
  unfolding page_step
  page_step_total file o (raw, read) = elim (Bool-cases (is_html file)) [
    | inl page ↦
        let now = page_body tools p o.file_hashes raw in
        (
          store_file tools file raw now o,
          rw (page, read) refl,
          λ f (body, at). store_file-some tools file raw now o f body at,
          λ h. (now, store_file_self tools file raw now o),
        )
    | inr plain ↦ (o, rw plain refl, λ f h. h, λ page. absurd (cc))
  ]

  compress_total :
      (files : List Text) (o : Outputs)
      → All IsReadable files
      → (o' : Outputs) × (minify_compute_sha_and_compress tools source files o ≡ some o')
        × Passed (λ f. is_html f ≡ false) files o o'
  unfolding minify_compute_sha_and_compress
  compress_total [] o h = (o, refl, record { kept = λ f b. b; made = tt })
  compress_total (file ∷ files) o (r, h) =
      let (next, one, kept, mine) = compress_step_total file o r in
      let (last, rest, later) = compress_total files next h in
      (
        last,
        rw one rest,
        record {
          kept = λ f b. later.kept f (kept f b);
          made = (λ plain. later.kept file (mine plain), later.made);
        },
      )

  pages_total :
      (files : List Text) (o : Outputs)
      → All IsReadable files
      → (o' : Outputs) × (update_html_sri_and_inject_update_js tools p source files o ≡ some o')
        × Passed (λ f. is_html f ≡ true) files o o'
  unfolding update_html_sri_and_inject_update_js
  pages_total [] o h = (o, refl, record { kept = λ f b. b; made = tt })
  pages_total (file ∷ files) o (r, h) =
      let (next, one, kept, mine) = page_step_total file o r in
      let (last, rest, later) = pages_total files next h in
      (
        last,
        rw one rest,
        record {
          kept = λ f b. later.kept f (kept f b);
          made = (λ page. later.kept file (mine page), later.made);
        },
      )

  both_kinds :
      (files : List Text) (first last : Outputs)
      → ((f : Text) → HasBody first f → HasBody last f)
      → All (λ f. is_html f ≡ false → HasBody first f) files
      → All (λ f. is_html f ≡ true → HasBody last f) files
      → All (HasBody last) files
  both_kinds [] first last kept plain page = tt
  both_kinds (f ∷ files) first last kept (a, plain) (b, page) = (
    elim (Bool-cases (is_html f)) [ inl h ↦ b h | inr h ↦ kept f (a h) ],
    both_kinds files first last kept plain page,
  )

  -- If every file can be read, both passes end without a panic, and then every file has a body.
  pub passes_total :
      (files : List Text) (o : Outputs)
      → All IsReadable files
      → (first : Outputs) × (minify_compute_sha_and_compress tools source files o ≡ some first)
        × (last : Outputs) × (update_html_sri_and_inject_update_js tools p source files first
            ≡ some last)
        × All (HasBody last) files
  passes_total files o h =
      let (first, one, plain) = compress_total files o h in
      let (last, two, pages) = pages_total files first h in
      (first, one, last, two, both_kinds files first last pages.kept plain.made pages.made)
