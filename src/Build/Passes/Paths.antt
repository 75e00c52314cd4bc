-- ===== src/Build/Passes/Paths.antt =====
-- The files of one source file are apart from each other and from those of any other.
use single_binary_static_web.Prelude.{
  ℕ, ◌≡◌, refl, sym, ap, ap₂, append_assoc, append-nil, ◌∙◌, false, [], ◌∷◌, ◌++◌, Text, codes,
  text_eq, ◌==◌, arith,
}
use single_binary_static_web.Build.Passes.{gz_path, raw_path, br_path, zst_path}

text_eq-append_left : (s t u : Text) → text_eq (s ++ t) (s ++ u) ≡ text_eq t u
unfolding text_eq
text_eq-append_left [] t u = refl
text_eq-append_left (c ∷ s) t u = ground (arith, text_eq-append_left s t u)

-- Two texts with different last bytes.
text_eq_last :
    (s t : Text) (x y : ℕ) → (x == y) ≡ false → text_eq (s ++ x ∷ []) (t ++ y ∷ []) ≡ false
unfolding text_eq
text_eq_last [] [] x y h = rw h refl
text_eq_last [] (b ∷ []) x y h = ground arith
text_eq_last [] (b ∷ c ∷ t) x y h = ground arith
text_eq_last (a ∷ []) [] x y h = ground arith
text_eq_last (a ∷ c ∷ s) [] x y h = ground arith
text_eq_last (a ∷ s) (b ∷ t) x y h = ground (arith, text_eq_last s t x y h)

text_eq-append_one : (s t : Text) (x : ℕ) → text_eq (s ++ x ∷ []) (t ++ x ∷ []) ≡ text_eq s t
unfolding text_eq
text_eq-append_one [] [] x = ground arith
text_eq-append_one [] (b ∷ []) x = ground arith
text_eq-append_one [] (b ∷ c ∷ t) x = ground arith
text_eq-append_one (a ∷ []) [] x = ground arith
text_eq-append_one (a ∷ c ∷ s) [] x = ground arith
text_eq-append_one (a ∷ s) (b ∷ t) x = ground (arith, text_eq-append_one s t x)

text_eq-append_right : (u s t : Text) → text_eq (s ++ u) (t ++ u) ≡ text_eq s t
text_eq-append_right [] s t = ap₂ text_eq (append-nil s) (append-nil t)
text_eq-append_right (x ∷ u) s t =
    ap₂ text_eq (sym (append_assoc s (x ∷ []) u)) (sym (append_assoc t (x ∷ []) u))
    ∙ text_eq-append_right u (s ++ x ∷ []) (t ++ x ∷ [])
    ∙ text_eq-append_one s t x

-- A path between a directory and an ending.
text_eq_between :
    (dir ending a b : Text) → text_eq (dir ++ (a ++ ending)) (dir ++ (b ++ ending)) ≡ text_eq a b
text_eq_between dir ending a b =
    text_eq-append_left dir (a ++ ending) (b ++ ending) ∙ text_eq-append_right ending a b

pub gz-gz : (a b : Text) → text_eq (gz_path a) (gz_path b) ≡ text_eq a b
unfolding gz_path
gz-gz a b = text_eq_between (codes "gzip/") (codes ".gz") a b

pub raw-raw : (a b : Text) → text_eq (raw_path a) (raw_path b) ≡ text_eq a b
unfolding raw_path
raw-raw a b = text_eq-append_right (codes ".raw") (gz_path a) (gz_path b) ∙ gz-gz a b

pub br-br : (a b : Text) → text_eq (br_path a) (br_path b) ≡ text_eq a b
unfolding br_path
br-br a b = text_eq_between (codes "brotli/") (codes ".br") a b

pub zst-zst : (a b : Text) → text_eq (zst_path a) (zst_path b) ≡ text_eq a b
unfolding zst_path
zst-zst a b = text_eq_between (codes "zstd/") (codes ".zst") a b

gz_last : (a : Text) → gz_path a ≡ (codes "gzip/" ++ (a ++ codes ".g")) ++ b'z' ∷ []
unfolding gz_path
gz_last a = sym (
    append_assoc (codes "gzip/") (a ++ codes ".g") (b'z' ∷ [])
    ∙ ap (λ l. codes "gzip/" ++ l) (append_assoc a (codes ".g") (b'z' ∷ [])))

pub gz-raw : (a b : Text) → text_eq (gz_path a) (raw_path b) ≡ false
unfolding raw_path
gz-raw a b =
    ap₂ text_eq (gz_last a) (sym (append_assoc (gz_path b) (codes ".ra") (b'w' ∷ [])))
    ∙ text_eq_last (codes "gzip/" ++ (a ++ codes ".g")) (gz_path b ++ codes ".ra") b'z' b'w' refl

pub raw-gz : (a b : Text) → text_eq (raw_path a) (gz_path b) ≡ false
unfolding raw_path
raw-gz a b =
    ap₂ text_eq (sym (append_assoc (gz_path a) (codes ".ra") (b'w' ∷ []))) (gz_last b)
    ∙ text_eq_last (gz_path a ++ codes ".ra") (codes "gzip/" ++ (b ++ codes ".g")) b'w' b'z' refl

-- Paths in different directories differ in their first bytes.
pub gz-br : (a b : Text) → text_eq (gz_path a) (br_path b) ≡ false
unfolding gz_path br_path text_eq
gz-br a b = refl

pub gz-zst : (a b : Text) → text_eq (gz_path a) (zst_path b) ≡ false
unfolding gz_path zst_path text_eq
gz-zst a b = refl

pub raw-br : (a b : Text) → text_eq (raw_path a) (br_path b) ≡ false
unfolding raw_path br_path text_eq gz_path
raw-br a b = refl

pub raw-zst : (a b : Text) → text_eq (raw_path a) (zst_path b) ≡ false
unfolding raw_path zst_path text_eq gz_path
raw-zst a b = refl

pub br-gz : (a b : Text) → text_eq (br_path a) (gz_path b) ≡ false
unfolding br_path gz_path text_eq
br-gz a b = refl

pub br-raw : (a b : Text) → text_eq (br_path a) (raw_path b) ≡ false
unfolding br_path raw_path text_eq gz_path
br-raw a b = refl

pub br-zst : (a b : Text) → text_eq (br_path a) (zst_path b) ≡ false
unfolding br_path zst_path text_eq
br-zst a b = refl

pub zst-gz : (a b : Text) → text_eq (zst_path a) (gz_path b) ≡ false
unfolding zst_path gz_path text_eq
zst-gz a b = refl

pub zst-raw : (a b : Text) → text_eq (zst_path a) (raw_path b) ≡ false
unfolding zst_path raw_path text_eq gz_path
zst-raw a b = refl

pub zst-br : (a b : Text) → text_eq (zst_path a) (br_path b) ≡ false
unfolding zst_path br_path text_eq
zst-br a b = refl
