-- ===== src/Build/Passes/Measured.antt =====
-- What passes that have ended say of the files: each was read, and has all lengths of the summary.
use single_binary_static_web.Prelude.{
  ◌≡◌, refl, subst, true, false, List, [], ◌∷◌, Option, some, >>=-eq-some, All, Bool-cases, inl,
  inr, Text, text_eq, text_eq_refl,
}
use single_binary_static_web.Build.Processing.{Tools}
use single_binary_static_web.Build.Summary.{Entry, entry}
use single_binary_static_web.Build.Passes.{
  Outputs, maps_of, update, store_file, is_html, compress_step, minify_compute_sha_and_compress,
  PageInputs, page_step, update_html_sri_and_inject_update_js,
}
use single_binary_static_web.Build.Passes.Bodies.{
  compress_step_cases, page_step_cases, compress-keeps, pages-keep,
}
use single_binary_static_web.Build.Passes.Total.{IsReadable}

abbrev pub IsMeasured : Outputs → Text → Type 0
IsMeasured o f = (x : Entry) × (entry (maps_of o) f ≡ some x)

store_file-IsMeasured :
    (tools : Tools) (file raw now : Text) (o : Outputs) (f : Text)
    → IsMeasured o f
    → IsMeasured (store_file tools file raw now o) f
unfolding store_file update entry
store_file-IsMeasured tools file raw now o f (x, h) = elim (Bool-cases (text_eq file f)) [
  | inl same ↦ rw same (_, refl)
  | inr other ↦ rw other (x, h)
]

store_file-measures :
    (tools : Tools) (file raw now : Text) (o : Outputs)
    → IsMeasured (store_file tools file raw now o) file
unfolding store_file update entry
store_file-measures tools file raw now o = rw (text_eq_refl file) (_, refl)

module _ (tools : Tools) (p : PageInputs) (source : Text → Option Text) where
  compress_step-IsMeasured :
      (f file : Text) (o o' : Outputs)
      → compress_step tools source file o ≡ some o'
      → IsMeasured o f
      → IsMeasured o' f
  compress_step-IsMeasured f file o o' made h =
      elim (compress_step_cases tools p source file o {o' = o'} made) [
        | inl (page, same) ↦ subst (λ x. IsMeasured x f) same h
        | inr (raw, plain, read, same) ↦
            subst (λ x. IsMeasured x f) same (store_file-IsMeasured tools file raw _ o f h)
      ]

  page_step-IsMeasured :
      (f file : Text) (o o' : Outputs)
      → page_step tools p source file o ≡ some o'
      → IsMeasured o f
      → IsMeasured o' f
  page_step-IsMeasured f file o o' made h =
      elim (page_step_cases tools p source file o {o' = o'} made) [
        | inl (plain, same) ↦ subst (λ x. IsMeasured x f) same h
        | inr (raw, page, read, same) ↦
            subst (λ x. IsMeasured x f) same (store_file-IsMeasured tools file raw _ o f h)
      ]

  abbrev Done : Outputs → Text → Type 0
  Done o f = IsReadable tools p source f × IsMeasured o f

  compress-Done :
      (files : List Text) (o o' : Outputs)
      → minify_compute_sha_and_compress tools source files o ≡ some o'
      → All (λ f. is_html f ≡ false → Done o' f) files
  unfolding minify_compute_sha_and_compress
  compress-Done [] o o' made = tt
  compress-Done (file ∷ files) o o' made =
      let (next, one, rest) = >>=-eq-some (compress_step tools source file o) _ made in
      (
        λ h. elim (compress_step_cases tools p source file o {o' = next} one) [
          | inl (page, same) ↦ absurd (cc)
          | inr (raw, plain, read, same) ↦ (
            (raw, read),
            compress-keeps tools p source (λ x. IsMeasured x file) (compress_step-IsMeasured file)
                files next o' rest
                (subst (λ x. IsMeasured x file) same (store_file-measures tools file raw _ o)),
          )
        ],
        compress-Done files next o' rest,
      )

  pages-Done :
      (files : List Text) (o o' : Outputs)
      → update_html_sri_and_inject_update_js tools p source files o ≡ some o'
      → All (λ f. is_html f ≡ true → Done o' f) files
  unfolding update_html_sri_and_inject_update_js
  pages-Done [] o o' made = tt
  pages-Done (file ∷ files) o o' made =
      let (next, one, rest) = >>=-eq-some (page_step tools p source file o) _ made in
      (
        λ h. elim (page_step_cases tools p source file o {o' = next} one) [
          | inl (plain, same) ↦ absurd (cc)
          | inr (raw, page, read, same) ↦ (
            (raw, read),
            pages-keep tools p source (λ x. IsMeasured x file) (page_step-IsMeasured file) files
                next o' rest
                (subst (λ x. IsMeasured x file) same (store_file-measures tools file raw _ o)),
          )
        ],
        pages-Done files next o' rest,
      )

  each_kind :
      (files : List Text) (first last : Outputs)
      → ((f : Text) → IsMeasured first f → IsMeasured last f)
      → All (λ f. is_html f ≡ false → Done first f) files
      → All (λ f. is_html f ≡ true → Done last f) files
      → All (Done last) files
  each_kind [] first last keep plain page = tt
  each_kind (f ∷ files) first last keep (a, plain) (b, page) = (
    elim (Bool-cases (is_html f)) [
      | inl h ↦ b h
      | inr h ↦ let (read, measured) = a h in (read, keep f measured)
    ],
    each_kind files first last keep plain page,
  )

  -- If both passes have ended, every file was read and has all its lengths.
  pub passes-Done :
      (files : List Text) (o first last : Outputs)
      → minify_compute_sha_and_compress tools source files o ≡ some first
      → update_html_sri_and_inject_update_js tools p source files first ≡ some last
      → All (Done last) files
  passes-Done files o first last one two =
      each_kind files first last
        (λ f.
          pages-keep tools p source (λ x. IsMeasured x f) (page_step-IsMeasured f) files first last
            two)
        (compress-Done files o first one) (pages-Done files first last two)
