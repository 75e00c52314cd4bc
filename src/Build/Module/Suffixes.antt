-- ===== src/Build/Module/Suffixes.antt =====
-- The suffixes of the names of a written module, and when names of them are apart.
use single_binary_static_web.Prelude.{
  true, List, [], ◌∷◌, ◌++◌, map, ◌≡◌, refl, ap, ◌∙◌, All, All-append, Text, codes, text_eq,
}
use single_binary_static_web.Build.Module.Meaning.{are_distinct}
use single_binary_static_web.Build.Module.Families.{
  ends_differ, In, are_distinct-append, Family, family,
}
use single_binary_static_web.Build.Module.Names.{
  prefixes_of, AreOf, same_or_apart, family-distinct, families-apart,
}

abbrev pub fixed_suffixes : List Text
fixed_suffixes =
    codes "_BODY"
    ∷ codes "_BODY_GZIP"
    ∷ codes "_BODY_BROTLI"
    ∷ codes "_BODY_ZSTD"
    ∷ codes "_UNCOMPRESSED_LEN"
    ∷ codes "_TYPE"
    ∷ codes "_FILE"
    ∷ []

abbrev pub constant_suffixes : List Text
constant_suffixes =
    codes "_BODY"
    ∷ codes "_BODY_GZIP"
    ∷ codes "_BODY_BROTLI"
    ∷ codes "_BODY_ZSTD"
    ∷ codes "_UNCOMPRESSED_LEN"
    ∷ codes "_GZIP_LEN"
    ∷ codes "_BROTLI_LEN"
    ∷ codes "_ZSTD_LEN"
    ∷ codes "_TYPE"
    ∷ codes "_FILE"
    ∷ []

abbrev pub array_suffixes : List Text
array_suffixes =
    codes "_HEADERS_IDENTITY"
    ∷ codes "_HEADERS_GZIP"
    ∷ codes "_HEADERS_BROTLI"
    ∷ codes "_HEADERS_ZSTD"
    ∷ []

abbrev pub static_suffixes : List Text
static_suffixes = codes "_ASSET" ∷ []

-- The prefixes of the files, and those of the three assets that are always there.
abbrev pub with_fixed : List Text → List Text
with_fixed ps = ps ++ codes "VERSION" ∷ codes "NOT_FOUND" ∷ codes "CHROME_DT" ∷ []

abbrev pub module_family : (suffixes fixed : List Text) → List Text → Family
module_family suffixes fixed ps =
    map (λ p. (p, suffixes)) ps
    ++ (codes "VERSION", suffixes) ∷ (codes "NOT_FOUND", fixed) ∷ (codes "CHROME_DT", fixed) ∷ []

module _ (names suffixes fixed : List Text) (once : are_distinct suffixes ≡ true)
    (i : All (In names) suffixes) (fixed_once : are_distinct fixed ≡ true)
    (j : All (In names) fixed) where
  module_family-AreOf : (ps : List Text) → AreOf names (module_family suffixes fixed ps)
  module_family-AreOf [] = ((once, i), ((fixed_once, j), ((fixed_once, j), tt)))
  module_family-AreOf (p ∷ ps) = ((once, i), module_family-AreOf ps)

prefixes_of-module_family :
    (suffixes fixed ps : List Text) → prefixes_of (module_family suffixes fixed ps) ≡ with_fixed ps
prefixes_of-module_family suffixes fixed [] = refl
prefixes_of-module_family suffixes fixed (p ∷ ps) =
    ap (λ l. p ∷ l) (prefixes_of-module_family suffixes fixed ps)

constants-AreOf :
    (ps : List Text) → AreOf constant_suffixes (module_family constant_suffixes fixed_suffixes ps)
unfolding are_distinct text_eq
constants-AreOf =
    module_family-AreOf constant_suffixes constant_suffixes fixed_suffixes refl
      (refl, (refl, (refl, (refl, (refl, (refl, (refl, (refl, (refl, (refl, tt)))))))))) refl
      (refl, (refl, (refl, (refl, (refl, (refl, (refl, tt)))))))

arrays-AreOf :
    (ps : List Text) → AreOf array_suffixes (module_family array_suffixes array_suffixes ps)
unfolding are_distinct text_eq
arrays-AreOf =
    module_family-AreOf array_suffixes array_suffixes array_suffixes refl
      (refl, (refl, (refl, (refl, tt)))) refl (refl, (refl, (refl, (refl, tt))))

statics-AreOf :
    (ps : List Text) → AreOf static_suffixes (module_family static_suffixes static_suffixes ps)
unfolding are_distinct text_eq
statics-AreOf =
    module_family-AreOf static_suffixes static_suffixes static_suffixes refl (refl, tt) refl
      (refl, tt)

-- The three kinds of names, of prefixes that stand once each.
abbrev pub all_names : List Text → List Text
all_names ps =
    (family (module_family constant_suffixes fixed_suffixes ps)
      ++ family (module_family array_suffixes array_suffixes ps))
    ++ family (module_family static_suffixes static_suffixes ps)

pub all_names-distinct :
    (ps : List Text) → are_distinct (with_fixed ps) ≡ true → are_distinct (all_names ps) ≡ true
unfolding same_or_apart ends_differ
all_names-distinct ps d =
    let cs = module_family constant_suffixes fixed_suffixes ps in
    let hs = module_family array_suffixes array_suffixes ps in
    let zs = module_family static_suffixes static_suffixes ps in
    let once : (suffixes fixed : List Text)
        → are_distinct (prefixes_of (module_family suffixes fixed ps)) ≡ true =
      λ suffixes fixed. ap are_distinct (prefixes_of-module_family suffixes fixed ps) ∙ d in
    are_distinct-append (family cs ++ family hs) (family zs)
      (are_distinct-append (family cs) (family hs)
        (family-distinct constant_suffixes refl cs (constants-AreOf ps)
          (once constant_suffixes fixed_suffixes))
        (family-distinct array_suffixes refl hs (arrays-AreOf ps)
          (once array_suffixes array_suffixes))
        (families-apart constant_suffixes array_suffixes refl cs hs (constants-AreOf ps)
          (arrays-AreOf ps)))
      (family-distinct static_suffixes refl zs (statics-AreOf ps)
        (once static_suffixes static_suffixes))
      (All-append _ (family cs) (family hs)
        (families-apart constant_suffixes static_suffixes refl cs zs (constants-AreOf ps)
          (statics-AreOf ps))
        (families-apart array_suffixes static_suffixes refl hs zs (arrays-AreOf ps)
          (statics-AreOf ps)))
