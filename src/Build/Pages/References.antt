-- ===== src/Build/Pages/References.antt =====
-- The references of a page to files with a hash, and the integrity that is put behind them.
use single_binary_static_web.Prelude.{
  true, [], ◌∷◌, ◌++◌, ◌≡◌, ◌≢◌, refl, sym, ap, ◌∙◌, subst, Text, codes, Without, Without-any,
  append_assoc, append-nil, arith,
}
use single_binary_static_web.Build.Pages.{pattern_of, integrity}
use single_binary_static_web.Build.Pages.Apart.{apart, differ, apart-append}

pub data Attribute : Type 0 where
  href : Attribute
  src : Attribute

abbrev pub attribute_name : Attribute → Text
attribute_name href = codes "href"
attribute_name src = codes "src"

-- A name without quotes and equals signs.
abbrev pub IsName : Text → Type 0
IsName name = Without b'"' name × Without b'=' name

differ-name :
    (n y u z : Text)
    → Without b'"' n
    → Without b'=' u
    → differ (u ++ b'"' ∷ z) (n ++ b'=' ∷ y) ≡ true
unfolding differ
differ-name [] y [] z hn hu = refl
differ-name [] y (x ∷ u) z hn (other, hu) = rw other refl
differ-name (k ∷ n) y [] z (other, hn) hu = ground arith
differ-name (k ∷ n) y (x ∷ u) z (_, hn) (_, hu) = ground (arith, differ-name n y u z hn hu)

-- A name and the quote behind it meet no attribute.
apart-name :
    (n y u z : Text) → Without b'"' n → Without b'=' u → apart u (b'"' ∷ z) (n ++ b'=' ∷ y) ≡ true
unfolding apart
apart-name n y [] z hn hu = refl
apart-name n y (x ∷ u) z hn hu = rw (differ-name n y (x ∷ u) z hn hu) (apart-name n y u z hn hu.1)

differ-hash :
    (n y u z : Text)
    → Without b'"' n
    → Without b'"' u
    → differ (u ++ b'"' ∷ b' ' ∷ z) (n ++ b'"' ∷ b'/' ∷ y) ≡ true
unfolding differ
differ-hash [] y [] z hn hu = refl
differ-hash [] y (x ∷ u) z hn (other, hu) = rw other refl
differ-hash (k ∷ n) y [] z (other, hn) hu = ground arith
differ-hash (k ∷ n) y (x ∷ u) z (_, hn) (_, hu) = ground (arith, differ-hash n y u z hn hu)

-- A hash and the quote and the blank behind it meet no reference.
apart-hash :
    (n y u z : Text)
    → Without b'"' n
    → Without b'"' u
    → apart u (b'"' ∷ b' ' ∷ z) (n ++ b'"' ∷ b'/' ∷ y) ≡ true
unfolding apart
apart-hash n y [] z hn hu = refl
apart-hash n y (x ∷ u) z hn hu = rw (differ-hash n y (x ∷ u) z hn hu) (apart-hash n y u z hn hu.1)

-- Two names differ, with the quotes behind them.
differ-names :
    (f g y z : Text)
    → Without b'"' f
    → Without b'"' g
    → f ≢ g
    → differ (f ++ b'"' ∷ y) (g ++ b'"' ∷ z) ≡ true
unfolding differ
differ-names [] [] y z hf hg ne = absurd (ne refl)
differ-names [] (b ∷ g) y z hf (other, hg) ne = ground arith
differ-names (a ∷ f) [] y z (other, hf) hg ne = rw other refl
differ-names (a ∷ f) (b ∷ g) y z (_, hf) (_, hg) ne = ground (arith, differ-names f g y z hf hg)

pub attribute-Without : (b : Attribute) → Without b'"' (attribute_name b)
attribute-Without href = Without-any b'"' (codes "href") refl
attribute-Without src = Without-any b'"' (codes "src") refl

-- A name and what stands behind it meet no reference, if what stands behind it does not.
apart-behind :
    (b : Attribute) (f g z : Text)
    → IsName f
    → apart (b'"' ∷ z) [] (pattern_of (attribute_name b) g) ≡ true
    → apart (f ++ b'"' ∷ z) [] (pattern_of (attribute_name b) g) ≡ true
apart-behind b f g z hf h =
    apart-append f (b'"' ∷ z) [] (pattern_of (attribute_name b) g)
      (apart-name (attribute_name b) (codes "\"/" ++ (g ++ codes "\"")) f (z ++ [])
        (attribute-Without b) hf.1)
      h

-- A reference, with any text behind it, meets no reference by the other attribute or to another file.
apart-reference :
    (a b : Attribute) (f g z : Text)
    → IsName f
    → IsName g
    → (a ≡ b → f ≢ g)
    → apart (b'"' ∷ z) [] (pattern_of (attribute_name b) g) ≡ true
    → apart
        (attribute_name a ++ (codes "=\"/" ++ (f ++ b'"' ∷ z)))
        []
        (pattern_of (attribute_name b) g)
      ≡ true
unfolding apart differ
apart-reference href href f g z hf hg ne h =
    rw (append-nil (f ++ b'"' ∷ z), differ-names f g z [] hf.0 hg.0 (ne refl))
      (apart-behind href f g z hf h)
apart-reference href src f g z hf hg ne h = apart-behind src f g z hf h
apart-reference src href f g z hf hg ne h = apart-behind href f g z hf h
apart-reference src src f g z hf hg ne h =
    rw (append-nil (f ++ b'"' ∷ z), differ-names f g z [] hf.0 hg.0 (ne refl))
      (apart-behind src f g z hf h)

apart-quote :
    (b : Attribute) (g : Text) → apart (codes "\"") [] (pattern_of (attribute_name b) g) ≡ true
unfolding apart differ
apart-quote href g = refl
apart-quote src g = refl

-- The end of a reference and the integrity behind it meet no reference.
apart-integrity :
    (b : Attribute) (g hash : Text)
    → Without b'"' hash
    → apart (b'"' ∷ integrity hash) [] (pattern_of (attribute_name b) g) ≡ true
unfolding apart differ
apart-integrity href g hash h =
    apart-append hash (codes "\" crossorigin=\"anonymous\"") [] (pattern_of (codes "href") g)
      (apart-hash (codes "href=") (g ++ codes "\"") hash _ (Without-any b'"' (codes "href=") refl)
        h)
      refl
apart-integrity src g hash h =
    apart-append hash (codes "\" crossorigin=\"anonymous\"") [] (pattern_of (codes "src") g)
      (apart-hash (codes "src=") (g ++ codes "\"") hash _ (Without-any b'"' (codes "src=") refl) h)
      refl

-- Two references that are not the same do not meet, nor does what is put in for the one meet the other.
pub references-apart :
    (a b : Attribute) (f g hash : Text)
    → IsName f
    → IsName g
    → Without b'"' hash
    → (a ≡ b → f ≢ g)
    → (apart (pattern_of (attribute_name b) g) [] (pattern_of (attribute_name a) f) ≡ true)
      × (apart
            (pattern_of (attribute_name a) f ++ integrity hash)
            []
            (pattern_of (attribute_name b) g)
          ≡ true)
references-apart a b f g hash hf hg hh ne = (
  apart-reference b a g f [] hg hf (λ e k. ne (sym e) (sym k)) (apart-quote a f),
  subst (λ t. apart t [] (pattern_of (attribute_name b) g) ≡ true)
      (sym (
        append_assoc (attribute_name a) (codes "=\"/" ++ (f ++ codes "\"")) (integrity hash)
        ∙ ap (λ t. attribute_name a ++ (codes "=\"/" ++ t))
            (append_assoc f (codes "\"") (integrity hash))))
      (apart-reference a b f g (integrity hash) hf hg ne (apart-integrity b g hash hh)),
)
