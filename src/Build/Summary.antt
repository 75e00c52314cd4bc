-- ===== src/Build/Summary.antt =====
-- `print_build_summary` of rust-server/build_helpers/mod.rs: the entries of the
-- files with all their lengths, and the smallest variant of each. The
-- sums are of the sizes of files, far below 2 ^ 64.
pub mod Printed
pub mod Printable
use single_binary_static_web.Prelude.{
  ℕ, ◌≤◌, ◌≡◌, refl, ◌&&◌, List, [], ◌∷◌, Option, none, some, ◌>>=◌, if◌then◌else◌, leb, total, min,
  Text, codes, arith, ap, sym, some_inj, >>=-eq-some, subst, All, Option-cases, inl, inr,
}

pub record Entry : Type 0 where
  pub file : Text
  pub orig : ℕ
  pub uncomp : ℕ
  pub gz : ℕ
  pub br : ℕ
  pub zst : ℕ

-- The five maps of lengths.
pub record Maps : Type 0 where
  pub original_lens : Text → Option ℕ
  pub uncompressed_lens : Text → Option ℕ
  pub gzip_lens : Text → Option ℕ
  pub br_lens : Text → Option ℕ
  pub zst_lens : Text → Option ℕ

unfoldable pub entry : Maps → Text → Option Entry
entry maps f = do
  orig ← maps.original_lens f
  uncomp ← maps.uncompressed_lens f
  gz ← maps.gzip_lens f
  br ← maps.br_lens f
  zst ← maps.zst_lens f
  some (record { file = f; orig = orig; uncomp = uncomp; gz = gz; br = br; zst = zst })

abbrev if_entry : Option Entry → List Entry → List Entry
if_entry none es = es
if_entry (some e) es = e ∷ es

-- `filter_map`
unfoldable pub entries : Maps → List Text → List Entry
unfolding entry
entries maps [] = []
entries maps (f ∷ files) = if_entry (entry maps f) (entries maps files)

-- `sort_by(|a, b| b.1.cmp(&a.1))`, which is stable: by the original size, the largest first.
abbrev pub insert_entry : Entry → List Entry → List Entry
insert_entry e [] = e ∷ []
insert_entry e (f ∷ fs) =
    let later = insert_entry e fs in if leb f.orig e.orig then e ∷ f ∷ fs else f ∷ later

unfoldable pub sorted_entries : List Entry → List Entry
sorted_entries [] = []
sorted_entries (e ∷ es) = insert_entry e (sorted_entries es)

-- `(best, best_label)`
unfoldable pub best : Entry → ℕ × Text
best e =
    if leb e.uncomp e.gz && (leb e.uncomp e.br && leb e.uncomp e.zst)
    then (e.uncomp, [])
    else if leb e.zst e.gz && leb e.zst e.br
    then (e.zst, codes "zst")
    else if leb e.br e.gz
    then (e.br, codes "br")
    else (e.gz, codes "gz")

pub record Totals : Type 0 where
  pub total_orig : ℕ
  pub total_gz : ℕ
  pub total_br : ℕ
  pub total_zst : ℕ
  pub total_best : ℕ

unfoldable pub totals : List Entry → Totals
unfolding best
totals es = record {
  total_orig = total (λ (e : Entry). e.orig) es;
  total_gz = total (λ (e : Entry). e.gz) es;
  total_br = total (λ (e : Entry). e.br) es;
  total_zst = total (λ (e : Entry). e.zst) es;
  total_best = total (λ (e : Entry). (best e).0) es;
}

-- The best size is that of the smallest variant.
best-min : (e : Entry) → (best e).0 ≡ min e.uncomp (min e.gz (min e.br e.zst))
unfolding best
best-min e = ground arith

-- The total of the best sizes is the sum of the smallest variants, so it is at most each total of one
-- encoding.
pub totals-best :
    (es : List Entry)
    → ((totals es).total_best ≡ total (λ (e : Entry). min e.uncomp (min e.gz (min e.br e.zst))) es)
      × ((totals es).total_best ≤ (totals es).total_gz)
      × ((totals es).total_best ≤ (totals es).total_br)
      × ((totals es).total_best ≤ (totals es).total_zst)
unfolding totals
totals-best [] = (refl, omega arith, omega arith, omega arith)
totals-best (e ∷ es) = omega (arith, best-min e, totals-best es)

-- The entries of the summary are of the files.
entry-file : (maps : Maps) (f : Text) {x : Entry} → entry maps f ≡ some x → f ≡ x.file
unfolding entry
entry-file maps f made =
    let (orig, _, r0) = >>=-eq-some (maps.original_lens f) _ made in
    let (uncomp, _, r1) = >>=-eq-some (maps.uncompressed_lens f) _ r0 in
    let (gz, _, r2) = >>=-eq-some (maps.gzip_lens f) _ r1 in
    let (br, _, r3) = >>=-eq-some (maps.br_lens f) _ r2 in
    let (zst, _, r4) = >>=-eq-some (maps.zst_lens f) _ r3 in
    ap (λ (x : Entry). x.file) (some_inj r4)

pub entries-All :
    (P : Text → Type 0) (maps : Maps) (files : List Text)
    → All P files
    → All (λ (x : Entry). P x.file) (entries maps files)
unfolding entries
entries-All P maps [] h = tt
entries-All P maps (f ∷ files) (p, h) = elim (Option-cases (entry maps f)) [
  | inl missing ↦ rw missing (entries-All P maps files h)
  | inr (x, made) ↦ rw made (subst P (entry-file maps f {x = x} made) p, entries-All P maps files h)
]

pub All-entries :
    (P : Text → Type 0) (maps : Maps) (files : List Text)
    → All (λ f. (x : Entry) × (entry maps f ≡ some x)) files
    → All (λ (x : Entry). P x.file) (entries maps files)
    → All P files
unfolding entries
All-entries P maps [] measured h = tt
All-entries P maps (f ∷ files) ((x, made), measured) h =
    let (p, ps) : P x.file × All (λ (y : Entry). P y.file) (entries maps files) = rw made at h in
    (subst P (sym (entry-file maps f {x = x} made)) p, All-entries P maps files measured ps)
