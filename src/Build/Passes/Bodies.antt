-- ===== src/Build/Passes/Bodies.antt =====
-- What the body of each file is after both passes.
use single_binary_static_web.Prelude.{
  ◌≡◌, refl, sym, ap, ◌∙◌, subst, ◌⊎◌, true, false, List, [], ◌∷◌, Option, some, >>=-eq-some,
  some_inj, Bool-cases, inl, inr, Text, text_eq, text_eq_iff,
}
use single_binary_static_web.Build.Processing.{Tools, minify_file}
use single_binary_static_web.Build.Passes.{
  insert_hash, get_hash, raw_path, Outputs, no_outputs, store_file, is_html, compress_step,
  minify_compute_sha_and_compress, PageInputs, page_body, page_step,
  update_html_sri_and_inject_update_js,
}
use single_binary_static_web.Build.Passes.Known.{
  AreKnown, no_hashes-AreKnown, compress_step-AreKnown, page_step-AreKnown,
}
use single_binary_static_web.Build.Passes.Stored.{
  get_hash-insert_hash, store_file_body, Consistent, store_file-Consistent,
}

page-plain : (f g : Text) → is_html f ≡ true → is_html g ≡ false → text_eq f g ≡ false
page-plain f g page plain = elim (Bool-cases (text_eq f g)) [
  | inl same ↦ absurd (cc (ap is_html ((text_eq_iff f g).0 same)))
  | inr other ↦ other
]

module _ (tools : Tools) (p : PageInputs) (source : Text → Option Text) where
  -- A step of either pass leaves the outputs, or stores what was made of the file that it read.
  pub compress_step_cases :
      (file : Text) (o : Outputs) {o' : Outputs}
      → compress_step tools source file o ≡ some o'
      → ((is_html file ≡ true) × (o ≡ o'))
        ⊎ ((raw : Text) × (is_html file ≡ false)
            × (source file ≡ some raw)
            × (store_file tools file raw (minify_file tools file raw) o ≡ o'))
  unfolding compress_step
  compress_step_cases file o made = elim (Bool-cases (is_html file)) [
    | inl page ↦ inl (page, some_inj (rw page at made))
    | inr plain ↦
        let (raw, read, e) = >>=-eq-some (source file) _ (rw plain at made) in
        inr (raw, plain, read, some_inj e)
  ]

  pub page_step_cases :
      (file : Text) (o : Outputs) {o' : Outputs}
      → page_step tools p source file o ≡ some o'
      → ((is_html file ≡ false) × (o ≡ o'))
        ⊎ ((raw : Text) × (is_html file ≡ true)
            × (source file ≡ some raw)
            × (store_file tools file raw (page_body tools p o.file_hashes raw) o ≡ o'))
  unfolding page_step
  page_step_cases file o made = elim (Bool-cases (is_html file)) [
    | inl page ↦
        let (raw, read, e) = >>=-eq-some (source file) _ (rw page at made) in
        inr (raw, page, read, some_inj e)
    | inr plain ↦ inl (plain, some_inj (rw plain at made))
  ]

  -- What every step keeps holds at the end of the loops.
  module _ (P : Outputs → Type 0) where
    pub compress-keeps :
        ((file : Text) (o o' : Outputs) → compress_step tools source file o ≡ some o' → P o → P o')
        → (files : List Text) (o o' : Outputs)
        → minify_compute_sha_and_compress tools source files o ≡ some o'
        → P o
        → P o'
    unfolding minify_compute_sha_and_compress
    compress-keeps keep [] o o' made h = subst P (some_inj made) h
    compress-keeps keep (file ∷ files) o o' made h =
        let (next, one, rest) = >>=-eq-some (compress_step tools source file o) _ made in
        compress-keeps keep files next o' rest (keep file o next one h)

    pub pages-keep :
        ((file : Text) (o o' : Outputs) → page_step tools p source file o ≡ some o' → P o → P o')
        → (files : List Text) (o o' : Outputs)
        → update_html_sri_and_inject_update_js tools p source files o ≡ some o'
        → P o
        → P o'
    unfolding update_html_sri_and_inject_update_js
    pages-keep keep [] o o' made h = subst P (some_inj made) h
    pages-keep keep (file ∷ files) o o' made h =
        let (next, one, rest) = >>=-eq-some (page_step tools p source file o) _ made in
        pages-keep keep files next o' rest (keep file o next one h)

  -- A body that is the minified file.
  pub record IsPlain (f body : Text) : Type 0 where
    pub plain : is_html f ≡ false
    pub raw : Text
    pub read : source f ≡ some raw
    pub minified : body ≡ minify_file tools f raw

  -- A body that is the page, with hashes that are for all other files those of the end.
  pub record IsPage (file_hashes : List (Text × Text)) (f body : Text) : Type 0 where
    pub page : is_html f ≡ true
    pub raw : Text
    pub read : source f ≡ some raw
    pub hashes : List (Text × Text)
    pub known : AreKnown tools source hashes
    pub processed : body ≡ page_body tools p hashes raw
    pub same_hashes : (g : Text) → is_html g ≡ false → get_hash g hashes ≡ get_hash g file_hashes

  abbrev ArePlain : Outputs → Type 0
  ArePlain o = (f body : Text) → o.out_dir (raw_path f) ≡ some body → IsPlain f body

  abbrev pub AreMade : Outputs → Type 0
  AreMade o =
      (f body : Text)
      → o.out_dir (raw_path f) ≡ some body
      → IsPlain f body ⊎ IsPage o.file_hashes f body

  compress_step-ArePlain :
      (file : Text) (o o' : Outputs)
      → compress_step tools source file o ≡ some o'
      → ArePlain o
      → ArePlain o'
  compress_step-ArePlain file o o' made h = elim (compress_step_cases file o made) [
    | inl (page, e) ↦ subst ArePlain e h
    | inr (raw, plain, read, e) ↦ subst ArePlain e (λ f body at.
        elim (store_file_body tools file raw (minify_file tools file raw) o f {body = body} at) [
          | inl (same, made_now) ↦
              subst (λ g. IsPlain g body) same
                (record { plain = plain; raw = raw; read = read; minified = sym made_now })
          | inr (other, before) ↦ h f body before
        ])
  ]

  -- A page changes no hash of another file.
  IsPage-insert :
      (file hash : Text) (hs : List (Text × Text)) (f body : Text)
      → is_html file ≡ true
      → IsPage hs f body
      → IsPage (insert_hash file hash hs) f body
  IsPage-insert file hash hs f body page i = record {
    page = i.page;
    raw = i.raw;
    read = i.read;
    hashes = i.hashes;
    known = i.known;
    processed = i.processed;
    same_hashes = λ g plain.
        i.same_hashes g plain
        ∙ sym (get_hash-insert_hash file g hash hs ∙ rw (page-plain file g page plain) refl);
  }

  page_step-AreMade :
      (file : Text) (o o' : Outputs)
      → page_step tools p source file o ≡ some o'
      → AreKnown tools source o.file_hashes
      → AreMade o
      → AreMade o'
  unfolding store_file
  page_step-AreMade file o o' made k h = elim (page_step_cases file o made) [
    | inl (plain, e) ↦ subst AreMade e h
    | inr (raw, page, read, e) ↦ subst AreMade e (λ f body at.
        let now = page_body tools p o.file_hashes raw in
        elim (store_file_body tools file raw now o f {body = body} at) [
          | inl (same, made_now) ↦
              subst
                (λ g. IsPlain g body ⊎ IsPage (store_file tools file raw now o).file_hashes g body)
                same
                (inr (
                  IsPage-insert file (tools.sha256_base64 now) o.file_hashes file body page
                    (record {
                      page = page;
                      raw = raw;
                      read = read;
                      hashes = o.file_hashes;
                      known = k;
                      processed = sym made_now;
                      same_hashes = λ g plain. refl;
                    })))
          | inr (other, before) ↦ elim (h f body before) [
            | inl i ↦ inl i
            | inr i ↦ inr (IsPage-insert file (tools.sha256_base64 now) o.file_hashes f body page i)
          ]
        ])
  ]

  abbrev KnownMade : Outputs → Type 0
  KnownMade o = AreKnown tools source o.file_hashes × AreMade o

  page_step-KnownMade :
      (file : Text) (o o' : Outputs)
      → page_step tools p source file o ≡ some o'
      → KnownMade o
      → KnownMade o'
  page_step-KnownMade file o o' made (k, h) =
      (page_step-AreKnown tools source file o p made k, page_step-AreMade file o o' made k h)

  abbrev pub AreConsistent : Outputs → Type 0
  AreConsistent o = (f : Text) → Consistent tools o f

  compress_step-AreConsistent :
      (file : Text) (o o' : Outputs)
      → compress_step tools source file o ≡ some o'
      → AreConsistent o
      → AreConsistent o'
  compress_step-AreConsistent file o o' made h = elim (compress_step_cases file o made) [
    | inl (page, e) ↦ subst AreConsistent e h
    | inr (raw, plain, read, e) ↦
        subst AreConsistent e (λ f. store_file-Consistent tools file raw _ o f (h f))
  ]

  page_step-AreConsistent :
      (file : Text) (o o' : Outputs)
      → page_step tools p source file o ≡ some o'
      → AreConsistent o
      → AreConsistent o'
  page_step-AreConsistent file o o' made h = elim (page_step_cases file o made) [
    | inl (plain, e) ↦ subst AreConsistent e h
    | inr (raw, page, read, e) ↦
        subst AreConsistent e (λ f. store_file-Consistent tools file raw _ o f (h f))
  ]

  -- After both passes, whatever the files: what is below OUT_DIR for a file, its lengths and its hash
  -- are all those of one body, and that body is the minified file or, of a page, the page with the
  -- version script and with the integrity of files whose hashes are those at the end.
  pub passes-AreMade :
      (files : List Text) (first last : Outputs)
      → minify_compute_sha_and_compress tools source files no_outputs ≡ some first
      → update_html_sri_and_inject_update_js tools p source files first ≡ some last
      → AreConsistent last × AreMade last
  passes-AreMade files first last one two =
      let start : AreConsistent no_outputs = λ f. nothing f in
      let plain =
        compress-keeps ArePlain compress_step-ArePlain files no_outputs first one
          (λ f body at. absurd (cc)) in
      let known =
        compress-keeps (λ o. AreKnown tools source o.file_hashes)
          (λ file o o' made. compress_step-AreKnown tools source file o made) files no_outputs first
          one (no_hashes-AreKnown tools source) in
      (
        pages-keep AreConsistent page_step-AreConsistent files first last two (
            compress-keeps AreConsistent compress_step-AreConsistent files no_outputs first one
              start),
        (pages-keep KnownMade page_step-KnownMade files first last two
            (known, λ f body at. inl (plain f body at))).1,
      )
    where
      nothing : (f : Text) → Consistent tools no_outputs f
      nothing f = record {
        gz_is = refl;
        br_is = refl;
        zst_is = refl;
        len_is = refl;
        gz_len_is = refl;
        br_len_is = refl;
        zst_len_is = refl;
        hash_is = unfold get_hash in refl;
      }
