-- ===== src/Build/Passes/Known.antt =====
-- Which hashes there are while the passes run: one for a file, and only of files that were read.
use single_binary_static_web.Prelude.{
  ◌≡◌, refl, sym, ap, ◌∙◌, subst, List, [], ◌∷◌, Option, none, some, some_inj, >>=-eq-some,
  Bool-cases, inl, inr, Text, text_eq, text_eq_iff, arith,
}
use single_binary_static_web.Build.Processing.{Tools, minify_file}
use single_binary_static_web.Build.Passes.{
  Outputs, insert_hash, get_hash, is_html, store_file, compress_step, PageInputs, page_body,
  page_step,
}
use single_binary_static_web.Build.Passes.Stored.{get_hash-insert_hash}

-- No file has two entries.
abbrev pub AreDistinct : List (Text × Text) → Type 0
AreDistinct [] = Unit
AreDistinct ((f, h) ∷ hs) = (get_hash f hs ≡ none) × AreDistinct hs

insert_hash-AreDistinct :
    (file hash : Text) (hs : List (Text × Text))
    → AreDistinct hs
    → AreDistinct (insert_hash file hash hs)
unfolding insert_hash get_hash
insert_hash-AreDistinct file hash [] d = (refl, tt)
insert_hash-AreDistinct file hash ((f, h) ∷ hs) (new, d) = elim (Bool-cases (text_eq f file)) [
  | inl same ↦ rw same (new, d)
  | inr other ↦ rw other (
    ground (arith, text_eq_iff file f, text_eq_iff f file, get_hash-insert_hash file f hash hs),
    insert_hash-AreDistinct file hash hs d,
  )
]

module _ (tools : Tools) (source : Text → Option Text) where
  -- A hash is that of some bytes, for a file that could be read.
  pub record IsKnown (file hash : Text) : Type 0 where
    pub raw : Text
    pub read : source file ≡ some raw
    pub bytes : Text
    pub hashed : hash ≡ tools.sha256_base64 bytes

  pub record AreKnown (hs : List (Text × Text)) : Type 0 where
    pub distinct : AreDistinct hs
    pub known : (f h : Text) → get_hash f hs ≡ some h → IsKnown f h

  pub insert_hash-AreKnown :
      (file raw bytes : Text) (hs : List (Text × Text))
      → source file ≡ some raw
      → AreKnown hs
      → AreKnown (insert_hash file (tools.sha256_base64 bytes) hs)
  insert_hash-AreKnown file raw bytes hs read k = record {
    distinct = insert_hash-AreDistinct file (tools.sha256_base64 bytes) hs k.distinct;
    known = λ f h at.
        let e = sym (get_hash-insert_hash file f (tools.sha256_base64 bytes) hs) ∙ at in
        elim (Bool-cases (text_eq file f)) [
          | inl same ↦ record {
            raw = raw;
            read = ap source (sym ((text_eq_iff file f).0 same)) ∙ read;
            bytes = bytes;
            hashed = sym (some_inj (rw same at e));
          }
          | inr other ↦ k.known f h (rw other at e)
        ];
  }

  pub no_hashes-AreKnown : AreKnown []
  unfolding get_hash
  no_hashes-AreKnown = record { distinct = tt; known = λ f h at. absurd (cc) }

  module _ (file : Text) (o : Outputs) {o' : Outputs} where
    -- A step of either pass keeps that.
    pub compress_step-AreKnown :
        compress_step tools source file o ≡ some o'
        → AreKnown o.file_hashes
        → AreKnown o'.file_hashes
    unfolding compress_step store_file
    compress_step-AreKnown made k = elim (Bool-cases (is_html file)) [
      | inl page ↦ subst (λ q. AreKnown q.file_hashes) (some_inj (rw page at made)) k
      | inr plain ↦
          let (raw, read, e) = >>=-eq-some (source file) _ (rw plain at made) in
          subst (λ q. AreKnown q.file_hashes) (some_inj e)
            (insert_hash-AreKnown file raw (minify_file tools file raw) o.file_hashes read k)
    ]

    pub page_step-AreKnown :
        (p : PageInputs)
        → page_step tools p source file o ≡ some o'
        → AreKnown o.file_hashes
        → AreKnown o'.file_hashes
    unfolding page_step store_file
    page_step-AreKnown p made k = elim (Bool-cases (is_html file)) [
      | inl page ↦
          let (raw, read, e) = >>=-eq-some (source file) _ (rw page at made) in
          subst (λ q. AreKnown q.file_hashes) (some_inj e)
            (insert_hash-AreKnown file raw (page_body tools p o.file_hashes raw) o.file_hashes read
              k)
      | inr plain ↦ subst (λ q. AreKnown q.file_hashes) (some_inj (rw plain at made)) k
    ]
