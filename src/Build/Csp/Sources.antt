-- ===== src/Build/Csp/Sources.antt =====
-- The sources of a directive's value: `'self'`, and the hashes of the files.
use single_binary_static_web.Prelude.{
  ℕ, Bool, true, false, ◌≡◌, refl, ap, ◌∙◌, List, [], ◌∷◌, ◌++◌, Option, none, some, zero, suc,
  get_elem?, some_inj, text_eq_refl, All-append, Without, Without-any, split_on-join,
  map-nil_append, any, Text, codes, text_eq, starts_with, ends_with, contains, All, Bool-cases, inl,
  inr, arith, split_on,
}
use single_binary_static_web.Build.Csp.{
  self_source, resolve_origin, hash_source, collect_hashes, build_csp_values,
}

starts_with-append : (s t : Text) → starts_with (s ++ t) s ≡ true
unfolding starts_with
starts_with-append [] t = refl
starts_with-append (c ∷ s) t = ground (arith, starts_with-append s t)

-- A value that comes from FORM_ACTION or CONNECT_SRC contains `'self'`.
pub resolve_origin_self : (raw : Option Text) → contains (resolve_origin raw) self_source ≡ true
unfolding resolve_origin contains
resolve_origin_self none = refl
resolve_origin_self (some val) = elim (Bool-cases (contains val self_source)) [
  | inl there ↦ rw there there
  | inr missing ↦ rw missing refl
]

-- Entries of files whose hash has no space, as base64 has none.
abbrev pub AreHashes : List (Text × Text) → Type 0
AreHashes = All (λ (e : Text × Text). Without b' ' e.1)

hash_source-Without : (h : Text) → Without b' ' h → Without b' ' (hash_source h)
hash_source-Without h ok =
    All-append _ (codes "'sha256-") (h ++ codes "'") (Without-any b' ' (codes "'sha256-") refl)
      (All-append _ h (codes "'") ok (Without-any b' ' (codes "'") refl))

collect_hashes-Without :
    (file_hashes : List (Text × Text)) (exts : List Text)
    → AreHashes file_hashes
    → All (Without b' ') (collect_hashes file_hashes exts)
unfolding collect_hashes
collect_hashes-Without [] exts h = tt
collect_hashes-Without ((f, d) ∷ rest) exts (ok, h) = elim (Bool-cases (any (ends_with f) exts)) [
  | inl taken ↦ rw taken (hash_source-Without d ok, collect_hashes-Without rest exts h)
  | inr left ↦ rw left (collect_hashes-Without rest exts h)
]

collect_hashes-any :
    (file_hashes : List (Text × Text)) (exts : List Text) (i : ℕ) (f d : Text)
    → get_elem? file_hashes i ≡ some (f, d)
    → any (ends_with f) exts ≡ true
    → any (text_eq (hash_source d)) (collect_hashes file_hashes exts) ≡ true
unfolding collect_hashes
collect_hashes-any [] exts i f d at e = absurd (cc)
collect_hashes-any ((g, c) ∷ rest) exts zero f d at e =
    let same : (g, c) ≡ (f, d) = some_inj at in
    rw
      (
        ap (λ (p : Text × Text). p.0) same,
        ap (λ (p : Text × Text). p.1) same,
        e,
        text_eq_refl (hash_source d),
      )
      refl
collect_hashes-any ((g, c) ∷ rest) exts (suc i) f d at e =
    let later = collect_hashes-any rest exts i f d at e in
    elim (Bool-cases (any (ends_with g) exts)) [
      | inl taken ↦ rw (taken, later) (ground arith)
      | inr left ↦ rw left later
    ]

any_later : (p : Text → Bool) (t : Text) (ts : List Text) → any p ts ≡ true → any p (t ∷ ts) ≡ true
any_later p t ts h = ground arith

-- With SRI enabled, and without spaces in hashes, the hash of every file whose name ends in `.js` is one
-- of the space-separated sources of script-src, and so is the hash of the version-check script.
pub build_csp_values-script_src :
    (env : Text → Option Text) (file_hashes : List (Text × Text)) (script_hash : Text)
    (allow_inline_styles : Bool) (i : ℕ) (f d : Text)
    → Without b' ' script_hash
    → AreHashes file_hashes
    → get_elem? file_hashes i ≡ some (f, d)
    → ends_with f (codes ".js") ≡ true
    → (any (text_eq (hash_source d)) (
          split_on b' '
            (build_csp_values env file_hashes script_hash false allow_inline_styles).script_src)
        ≡ true)
      × (any (text_eq (hash_source script_hash)) (
            split_on b' '
              (build_csp_values env file_hashes script_hash false allow_inline_styles).script_src)
          ≡ true)
unfolding build_csp_values
build_csp_values-script_src env file_hashes script_hash allow_inline_styles i f d ok h at js =
    let hashes = collect_hashes file_hashes (codes ".js" ∷ []) in
    let sources =
      split_on-join b' ' [] [] (hash_source script_hash) hashes tt tt
        (hash_source-Without script_hash ok)
        (collect_hashes-Without file_hashes (codes ".js" ∷ []) h) in
    let found = collect_hashes-any file_hashes (codes ".js" ∷ []) i f d at (ground (arith, js)) in
    let split = sources ∙ ap (λ l. hash_source script_hash ∷ l) (map-nil_append hashes) in
    (
      ap (any (text_eq (hash_source d))) split
          ∙ any_later (text_eq (hash_source d)) (hash_source script_hash) hashes found,
      ap (any (text_eq (hash_source script_hash))) split
          ∙ rw (text_eq_refl (hash_source script_hash)) refl,
    )
