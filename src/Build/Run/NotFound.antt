-- ===== src/Build/Run/NotFound.antt =====
-- The 404 page of the context that `run` makes: the unwraps that look for it.
use single_binary_static_web.Prelude.{
  ℕ, ◌⊎◌, zero, suc, Bool, true, false, ◌≡◌, refl, sym, ap, ◌∙◌, subst, List, [], ◌∷◌, ◌++◌,
  append_assoc, append-nil, any, none, some, >>=-eq-some, some_inj, if◌then◌else◌, get_elem?,
  get_elem?-append_left, get_elem?-append_length, length, All2-get_elem?, Text, text_eq,
  text_eq_iff, Bool-cases, inl, inr, arith,
}
use single_binary_static_web.Asset.{Embed, Header}
use single_binary_static_web.Build.Files.{url_paths_for_file}
use single_binary_static_web.Build.Metadata.{
  Inputs, Metadata, no_metadata, asset_headers, add_asset, step, build_asset_metadata,
  build_version_headers, build_not_found_headers, not_found_headers,
}
use single_binary_static_web.Build.Metadata.Sizes.{Recorded, build_asset_metadata-Recorded}
use single_binary_static_web.Build.Dedup.{header_set_key, rebuild_index}
use single_binary_static_web.Build.Dedup.Keys.{HasKey, intern-HasKey, rebuild_index-IsIndexed}
use single_binary_static_web.Build.Codegen.{CodegenCtx, Lengths}
use single_binary_static_web.Build.Run.Recorded.{version_headers-keeps}
use single_binary_static_web.Build.Run.{position, not_found_header, context, run}

-- `position` finds a file that is there.
position-some :
    (files : List Text) (k : ℕ) {file : Text}
    → get_elem? files k ≡ some file
    → (p : ℕ) × (position file files ≡ some p) × (get_elem? files p ≡ some file)
unfolding position
position-some [] k at = absurd (ground arith)
position-some (f ∷ files) zero {file = file} at =
    (zero, rw ((text_eq_iff f file).1 (some_inj at)) refl, at)
position-some (f ∷ files) (suc k) {file = file} at = elim (Bool-cases (text_eq f file)) [
  | inl same ↦ (zero, rw same refl, ap some ((text_eq_iff f file).0 same))
  | inr other ↦
      let (p, found, there) = position-some files k at in (suc p, rw (other, found) refl, there)
]

-- A 404 page that was seen is one of the files.
abbrev IsSeen : List Text → Metadata → Type 0
IsSeen files m =
    m.has_404 ≡ true
    → (file : Text) × (m.not_found_file ≡ some file) × (k : ℕ) × (get_elem? files k ≡ some file)

module _ (inputs : Inputs) where
  add_asset-IsSeen :
      (done : List Text) (m : Metadata) (file : Text) (paths : List Text) (gz br zst : Text)
      → IsSeen done m
      → IsSeen (done ++ file ∷ []) (add_asset inputs file paths gz br zst m)
  unfolding add_asset
  add_asset-IsSeen done m file paths gz br zst seen =
      by_name (text_eq file inputs.not_found_filename)
    where
      by_name :
          (b : Bool)
          → (if b then true else m.has_404) ≡ true
          → (f : Text) × ((if b then some file else m.not_found_file) ≡ some f)
            × (k : ℕ) × (get_elem? (done ++ file ∷ []) k ≡ some f)
      by_name true h = (file, refl, length done, get_elem?-append_length done file [])
      by_name false h =
          let (f, named, k, at) = seen h in
          (f, named, k, get_elem?-append_left done (file ∷ []) k at)

  -- What each file keeps, of the files so far, holds of all of them.
  loop-keeps :
      (P : List Text → Metadata → Type 0)
      → ((done : List Text) (m : Metadata) (file : Text) (paths : List Text) (gz br zst : Text)
          → P done m
          → P (done ++ file ∷ []) (add_asset inputs file paths gz br zst m))
      → (files done : List Text) (m m' : Metadata) → build_asset_metadata inputs files m ≡ some m'
      → P done m
      → P (done ++ files) m'
  unfolding build_asset_metadata step
  loop-keeps P keep [] done m m' e seen =
      subst (λ l. P l m') (sym (append-nil done)) (subst (P done) (some_inj e) seen)
  loop-keeps P keep (file ∷ files) done m m' e seen =
      let (n, made, rest) = >>=-eq-some (step inputs file m) _ e in
      let (paths, ep, e1) = >>=-eq-some (url_paths_for_file file) _ made in
      let (gz, eg, e2) = >>=-eq-some (inputs.read_gz file) _ e1 in
      let (br, eb, e3) = >>=-eq-some (inputs.read_br file) _ e2 in
      let (zst, ez, e4) = >>=-eq-some (inputs.read_zst file) _ e3 in
      subst (λ l. P l m') (append_assoc done (file ∷ []) files)
        (loop-keeps P keep files (done ++ file ∷ []) n m' rest
          (subst (P (done ++ file ∷ [])) (some_inj e4) (keep done m file paths gz br zst seen)))

  -- The 404 page is one of the files, whether it was seen or not.
  abbrev IsListed : List Text → Metadata → Type 0
  IsListed files m =
      (file : Text) → m.not_found_file ≡ some file → (k : ℕ) × (get_elem? files k ≡ some file)

  add_asset-IsListed :
      (done : List Text) (m : Metadata) (file : Text) (paths : List Text) (gz br zst : Text)
      → IsListed done m
      → IsListed (done ++ file ∷ []) (add_asset inputs file paths gz br zst m)
  unfolding add_asset
  add_asset-IsListed done m file paths gz br zst listed =
      by_name (text_eq file inputs.not_found_filename)
    where
      by_name :
          (b : Bool) (f : Text)
          → (if b then some file else m.not_found_file) ≡ some f
          → (k : ℕ) × (get_elem? (done ++ file ∷ []) k ≡ some f)
      by_name true f h = (length done, get_elem?-append_length done file [] ∙ h)
      by_name false f h =
          let (k, at) = listed f h in (k, get_elem?-append_left done (file ∷ []) k at)

  pub build_asset_metadata-not_found :
      (files : List Text) (m : Metadata) (file : Text)
      → build_asset_metadata inputs files no_metadata ≡ some m
      → m.not_found_file ≡ some file
      → (k : ℕ) × (get_elem? files k ≡ some file)
  build_asset_metadata-not_found files m file collected named =
      loop-keeps IsListed add_asset-IsListed files [] no_metadata m collected (λ f h. absurd (cc))
        file named

  -- The 404 page of the metadata, the sets of headers being those of the version as well.
  not_found_header-HasKey :
      (files : List Text) (hash : Text) (m : Metadata) (sets : List (List Header))
      → IsSeen files m
      → Recorded inputs files m
      → ((key : Text) (i : ℕ) → HasKey m.header_sets.sets key i → HasKey sets key i)
      → m.has_404 ≡ true
      → (file : Text) × (m.not_found_file ≡ some file)
        × (i : ℕ) × (not_found_header inputs hash files m sets ≡ some (i, sets))
        × HasKey sets (header_set_key (asset_headers inputs file)) i
  unfolding not_found_header
  not_found_header-HasKey files hash m sets seen r kept there =
      let (file, named, k, at) = seen there in
      let (p, found, same) = position-some files k at in
      let (i, index, key) =
        All2-get_elem? _ files m.asset_header_indices p {x = file} r.headers_of same in
      (file, named, i, rw (there, named, found, index) refl, kept _ i key)

  inline-HasKey :
      (hash : Text) (sets : List (List Header))
      → HasKey
          (build_not_found_headers hash inputs.security_headers sets inputs.build_version).1.sets
          (header_set_key (not_found_headers hash inputs.security_headers inputs.build_version))
          (build_not_found_headers hash inputs.security_headers sets inputs.build_version).0
  unfolding build_not_found_headers
  inline-HasKey hash sets =
      (intern-HasKey (not_found_headers hash inputs.security_headers inputs.build_version)
        (rebuild_index sets) (rebuild_index-IsIndexed sets)).0

  -- The page is the file of the configured name, if there is one.
  abbrev pub is_configured : List Text → Bool
  is_configured files = any (λ f. text_eq f inputs.not_found_filename) files

  abbrev AreConfigured : List Text → Metadata → Type 0
  AreConfigured files m =
      (m.has_404 ≡ is_configured files)
      × (m.not_found_file ≡ (if is_configured files then some inputs.not_found_filename else none))

  is_configured-last :
      (done : List Text) (file : Text)
      → is_configured (done ++ file ∷ [])
        ≡ (if text_eq file inputs.not_found_filename then true else is_configured done)
  is_configured-last [] file = ground arith
  is_configured-last (f ∷ done) file = ground (arith, is_configured-last done file)

  add_asset-AreConfigured :
      (done : List Text) (m : Metadata) (file : Text) (paths : List Text) (gz br zst : Text)
      → AreConfigured done m
      → AreConfigured (done ++ file ∷ []) (add_asset inputs file paths gz br zst m)
  unfolding add_asset
  add_asset-AreConfigured done m file paths gz br zst (seen, named) =
      elim (Bool-cases (text_eq file inputs.not_found_filename)) [
        | inl same ↦
            rw (is_configured-last done file, same)
              (refl, ap some ((text_eq_iff file inputs.not_found_filename).0 same))
        | inr other ↦ rw (is_configured-last done file, other) (seen, named)
      ]

  -- Once the build has collected the files, `run` does not panic. If a file has the configured name, it
  -- is the 404 page of the context, and the headers of the 404 response are found under the key of
  -- that file's; if none has, there is no page, and they are found under the key of those of the
  -- inline page.
  pub run-not_found :
      (files : List Text) (embed : Embed) (hash : Text) (version : Lengths) (m : Metadata)
      → build_asset_metadata inputs files no_metadata ≡ some m
      → (ctx : CodegenCtx) × (run inputs files embed hash version ≡ some ctx)
        × (((is_configured files ≡ true)
              × (ctx.not_found_file ≡ some inputs.not_found_filename)
              × HasKey ctx.header_sets
                  (header_set_key (asset_headers inputs inputs.not_found_filename))
                  ctx.not_found_header_idx)
            ⊎ ((is_configured files ≡ false)
                × (ctx.not_found_file ≡ none)
                × HasKey ctx.header_sets
                    (header_set_key
                      (not_found_headers hash inputs.security_headers inputs.build_version))
                    ctx.not_found_header_idx))
  unfolding run not_found_header
  run-not_found files embed hash version m collected =
      let seen =
        loop-keeps IsSeen add_asset-IsSeen files [] no_metadata m collected (λ h. absurd (cc)) in
      let (has_404, page) =
        loop-keeps AreConfigured add_asset-AreConfigured files [] no_metadata m collected
          (refl, refl) in
      let r = build_asset_metadata-Recorded inputs files {m = m} collected in
      let (v, hs) = build_version_headers inputs.build_version m.header_sets.sets in
      elim (Bool-cases (is_configured files)) [
        | inl there ↦
            let is_page = page ∙ rw there refl in
            let (file, named, i, found, key) =
              not_found_header-HasKey files hash m hs.sets seen r
                (version_headers-keeps inputs inputs.build_version m.header_sets.sets)
                (has_404 ∙ there) in
            (
              context inputs files embed version m v (i, hs.sets),
              rw (collected, found) refl,
              inl (
                there,
                is_page,
                subst (λ f. HasKey hs.sets (header_set_key (asset_headers inputs f)) i)
                    (some_inj (sym named ∙ is_page)) key,
              ),
            )
        | inr missing ↦
            let (i, inline) =
              build_not_found_headers hash inputs.security_headers hs.sets inputs.build_version in
            (
              context inputs files embed version m v (i, inline.sets),
              rw (collected, has_404 ∙ missing) refl,
              inr (missing, page ∙ rw missing refl, inline-HasKey hash hs.sets),
            )
      ]

  pub run-not_found_file :
      (files : List Text) (embed : Embed) (hash : Text) (version : Lengths) {ctx : CodegenCtx}
      (file : Text)
      → run inputs files embed hash version ≡ some ctx
      → ctx.not_found_file ≡ some file
      → (k : ℕ) × (get_elem? ctx.files k ≡ some file)
  unfolding run
  run-not_found_file files embed hash version {ctx} file made named =
      let (m, collected, e1) = >>=-eq-some (build_asset_metadata inputs files no_metadata) _ made in
      let (v, hs) = build_version_headers inputs.build_version m.header_sets.sets in
      let (nf, found, e2) = >>=-eq-some (not_found_header inputs hash files m hs.sets) _ e1 in
      let is : context inputs files embed version m v nf ≡ ctx = some_inj e2 in
      let (k, at) =
        build_asset_metadata-not_found files m file collected
          (ap (λ (c : CodegenCtx). c.not_found_file) is ∙ named) in
      (k, ap (λ (c : CodegenCtx). get_elem? c.files k) (sym is) ∙ at)
