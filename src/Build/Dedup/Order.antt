-- ===== src/Build/Dedup/Order.antt =====
-- Which header sets share a key.
use mathlib.Core.List.{Perm}
use mathlib.Core.List.Perm
use single_binary_static_web.Prelude.{
  ◌≡◌, refl, sym, ap, ap₂, ◌∙◌, subst, false, ◌↔◌, List, [], ◌∷◌, ◌++◌, map, unwrap_or, is_empty,
  All, All-append, Without, split_on, split_on-join_bare, split_once, split_once-append_sep, join,
  Text, codes,
}
use single_binary_static_web.Asset.{Header}
use single_binary_static_web.Build.Sorting.{sort}
use single_binary_static_web.Build.Sorting.Laws.{sort-perm, sort-perm_eq, All-sort}
use single_binary_static_web.Build.Dedup.{header_set_key}

abbrev line : Header → Text
line h = h.0 ++ (b':' ∷ h.1)

-- No name has a colon or a line feed, and no value a line feed.
abbrev pub IsHeader : Header → Type 0
IsHeader h = Without b':' h.0 × Without b'\n' h.0 × Without b'\n' h.1

-- Part of a key: not empty, and on one line.
abbrev IsLine : Text → Type 0
IsLine s = Without b'\n' s × (is_empty s ≡ false)

line-IsLine : (h : Header) → IsHeader h → IsLine (line h)
line-IsLine ([], v) (a, b, c) = ((refl, c), refl)
line-IsLine (x ∷ k, v) (a, b, c) = (All-append _ (x ∷ k) (b':' ∷ v) b (refl, c), refl)

lines-IsLine : (hs : List Header) → All IsHeader hs → All IsLine (map line hs)
lines-IsLine [] h = tt
lines-IsLine (x ∷ hs) (p, h) = (line-IsLine x p, lines-IsLine hs h)

one_line : (l : List Text) → All IsLine l → All (Without b'\n') l
one_line [] h = tt
one_line (x ∷ l) ((p, q), h) = (p, one_line l h)

join-not_empty :
    (p : Text) (ps : List Text) → is_empty p ≡ false → is_empty (join (codes "\n") (p ∷ ps)) ≡ false
unfolding join
join-not_empty [] ps h = cc
join-not_empty (c ∷ p) [] h = refl
join-not_empty (c ∷ p) (q ∷ ps) h = refl

join_inj :
    (ps qs : List Text)
    → All IsLine ps
    → All IsLine qs
    → join (codes "\n") ps ≡ join (codes "\n") qs
    → ps ≡ qs
unfolding join
join_inj [] [] hp hq e = refl
join_inj [] (q ∷ qs) hp ((a, b), hq) e = absurd (cc (join-not_empty q qs b))
join_inj (p ∷ ps) [] ((a, b), hp) hq e = absurd (cc (join-not_empty p ps b))
join_inj (p ∷ ps) (q ∷ qs) ((a, b), hp) ((c, d), hq) e =
    sym (split_on-join_bare b'\n' p ps a (one_line ps hp))
    ∙ ap (split_on b'\n') e
    ∙ split_on-join_bare b'\n' q qs c (one_line qs hq)

abbrev parse : Text → Header
parse s = unwrap_or (split_once b':' s) ([], [])

parse-lines : (hs : List Header) → All IsHeader hs → map parse (map line hs) ≡ hs
parse-lines [] h = refl
parse-lines (x ∷ hs) ((a, b, c), h) =
    ap₂ ◌∷◌ (ap (λ o. unwrap_or o ([], [])) (split_once-append_sep b':' x.0 x.1 a))
      (parse-lines hs h)

-- Header sets without colons in names and line feeds have the same key exactly if they are the same up
-- to order, so that no two different sets are given one index.
pub header_set_key-perm_iff :
    (xs ys : List Header)
    → All IsHeader xs
    → All IsHeader ys
    → (header_set_key xs ≡ header_set_key ys) ↔ Perm xs ys
unfolding header_set_key
header_set_key-perm_iff xs ys hx hy = (apart, together)
  where
    apart : header_set_key xs ≡ header_set_key ys → Perm xs ys
    apart e =
        let sorted =
          join_inj (sort (map line xs)) (sort (map line ys))
            (All-sort IsLine (map line xs) (lines-IsLine xs hx))
            (All-sort IsLine (map line ys) (lines-IsLine ys hy)) e in
        let same : Perm (map line xs) (map line ys) =
          Perm.trans (Perm.symm (sort-perm (map line xs)))
            (subst (λ l. Perm l (map line ys)) (sym sorted) (sort-perm (map line ys))) in
        subst (λ l. Perm l ys) (parse-lines xs hx)
          (subst (λ l. Perm (map parse (map line xs)) l) (parse-lines ys hy) (Perm.map parse same))

    together : Perm xs ys → header_set_key xs ≡ header_set_key ys
    together p = ap (join (codes "\n")) (sort-perm_eq (Perm.map line p))
