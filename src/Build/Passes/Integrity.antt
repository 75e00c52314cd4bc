-- ===== src/Build/Passes/Integrity.antt =====
-- The integrity attributes of the pages: which references of a page get one, and which hash.
use single_binary_static_web.Prelude.{
  ◌≡◌, ◌↔◌, ◌≢◌, refl, sym, ap, ◌∙◌, subst, true, false, List, [], ◌∷◌, ◌++◌, Option, none, some,
  some_inj, Bool-cases, inl, inr, Text, codes, text_eq, text_eq_iff, text_eq_refl, Without, arith,
}
use mathlib.Core.Option
use single_binary_static_web.Build.Processing.{Tools, html_cfg}
use single_binary_static_web.Build.Pages.{
  pattern_of, integrity, add_integrity, add_integrities, inject_script,
}
use single_binary_static_web.Build.Pages.Apart.{apart}
use single_binary_static_web.Build.Pages.Linked.{
  Rules, Linked, Rule, Has, Linked-iff, AreSeparated, Separated, replace_all, replace_all-Linked,
}
use single_binary_static_web.Build.Pages.References.{
  Attribute, href, src, attribute_name, IsName, references-apart,
}
use single_binary_static_web.Build.Passes.{
  Outputs, no_outputs, get_hash, raw_path, is_html, PageInputs, page_body,
  minify_compute_sha_and_compress, update_html_sri_and_inject_update_js,
}
use single_binary_static_web.Build.Passes.Known.{AreDistinct}
use single_binary_static_web.Build.Passes.Stored.{Consistent}
use single_binary_static_web.Build.Passes.Bodies.{IsPage, passes-AreMade}

-- A reference to a file with a hash, and the integrity that belongs behind it.
abbrev pub Reference : (Text → Option Text) → Rules
Reference hashes pattern added =
    (a : Attribute) × (file : Text) × (hash : Text) × (hashes file ≡ some hash)
    × (pattern ≡ pattern_of (attribute_name a) file)
    × (added ≡ integrity hash)

rules : List (Text × Text) → List Rule
rules [] = []
rules ((f, h) ∷ hs) =
    (pattern_of (codes "href") f, integrity h)
    ∷ (pattern_of (codes "src") f, integrity h)
    ∷ rules hs

add_integrities-replace_all :
    (hs : List (Text × Text)) (page : Text) → add_integrities hs page ≡ replace_all (rules hs) page
unfolding add_integrities add_integrity replace_all rules
add_integrities-replace_all [] page = refl
add_integrities-replace_all ((f, h) ∷ hs) page = add_integrities-replace_all hs _

get_hash-distinct :
    (f g h : Text) (hs : List (Text × Text)) → get_hash f hs ≡ none → get_hash g hs ≡ some h → f ≢ g
get_hash-distinct f g h hs missing at e = cc (ap (λ t. get_hash t hs) e)

get_hash-cons :
    (f g h k : Text) (hs : List (Text × Text))
    → get_hash f hs ≡ none
    → get_hash g hs ≡ some k
    → get_hash g ((f, h) ∷ hs) ≡ some k
unfolding get_hash
get_hash-cons f g h k hs missing at =
    let ne = get_hash-distinct f g k hs missing at in ground (arith, text_eq_iff f g)

-- The rules are those of the references to the files with a hash.
rules-Reference :
    (hs : List (Text × Text))
    → AreDistinct hs
    → (p a : Text) → Has (rules hs) p a
    → Reference (λ f. get_hash f hs) p a
unfolding rules get_hash
rules-Reference [] d p a r = absurd r
rules-Reference ((f, h) ∷ hs) d p a (inl (ep, ea)) = (href, f, h, rw (text_eq_refl f) refl, ep, ea)
rules-Reference ((f, h) ∷ hs) d p a (inr (inl (ep, ea))) =
    (src, f, h, rw (text_eq_refl f) refl, ep, ea)
rules-Reference ((f, h) ∷ hs) (missing, d) p a (inr (inr r)) =
    let (b, g, k, at, ep, ea) = rules-Reference hs d p a r in
    (b, g, k, get_hash-cons f g h k hs missing at, ep, ea)

Reference-rules :
    (hs : List (Text × Text)) (b : Attribute) (g k : Text)
    → get_hash g hs ≡ some k
    → Has (rules hs) (pattern_of (attribute_name b) g) (integrity k)
unfolding rules get_hash
Reference-rules [] b g k at = absurd (cc)
Reference-rules ((f, h) ∷ hs) b g k at = elim (Bool-cases (text_eq f g)) [
  | inl same ↦ here b ((text_eq_iff f g).0 same) (some_inj (rw same at at))
  | inr other ↦ inr (inr (Reference-rules hs b g k (rw other at at)))
]
  where
    here :
        (b : Attribute)
        → f ≡ g
        → h ≡ k
        → Has (rules ((f, h) ∷ hs)) (pattern_of (attribute_name b) g) (integrity k)
    here href ef eh = inl (ap (pattern_of (codes "href")) (sym ef), ap integrity (sym eh))
    here src ef eh = inr (inl (ap (pattern_of (codes "src")) (sym ef), ap integrity (sym eh)))

-- Files whose names are without quotes and equals signs, with hashes without quotes.
abbrev AreClean : List (Text × Text) → Type 0
AreClean hs = (f h : Text) → get_hash f hs ≡ some h → IsName f × Without b'"' h

rules-AreSeparated :
    (hs : List (Text × Text)) → AreDistinct hs → AreClean hs → AreSeparated (rules hs)
unfolding rules
rules-AreSeparated [] d clean = tt
rules-AreSeparated ((f, h) ∷ hs) (missing, d) clean =
    let (name, hash) = clean f h (unfold get_hash in rw (text_eq_refl f) refl) in
    let later : (a : Attribute)
        → Separated (pattern_of (attribute_name a) f, integrity h) (Has (rules hs)) =
      λ a p q r.
        let (b, g, k, at, ep, ea) = rules-Reference hs d p q r in
        let other =
          references-apart a b f g h name (clean g k (get_hash-cons f g h k hs missing at)).0 hash
            (λ _. get_hash-distinct f g k hs missing at) in
        subst
          (λ t.
            (apart t [] (pattern_of (attribute_name a) f) ≡ true)
            × (apart (pattern_of (attribute_name a) f ++ integrity h) [] t ≡ true))
          (sym ep) other in
    let both = references-apart href src f f h name name hash (λ e. cc) in
    (
      (_, _, refl),
      λ p q r. elim r [
        | inl (ep, ea) ↦
            subst
              (λ t.
                (apart t [] (pattern_of (codes "href") f) ≡ true)
                × (apart (pattern_of (codes "href") f ++ integrity h) [] t ≡ true))
              (sym ep) both
        | inr l ↦ later href p q l
      ],
      (
        (_, _, refl),
        later src,
        rules-AreSeparated hs d (λ g k at. clean g k (get_hash-cons f g h k hs missing at)),
      ),
    )

Reference-Has :
    (hs : List (Text × Text)) (p a : Text) → Reference (λ f. get_hash f hs) p a → Has (rules hs) p a
Reference-Has hs p a (b, f, h, at, ep, ea) =
    subst (λ t. Has (rules hs) t a) (sym ep)
      (subst (λ t. Has (rules hs) (pattern_of (attribute_name b) f) t) (sym ea)
        (Reference-rules hs b f h at))

-- There is one text with the integrity behind the references to the files of the list, that of the loop.
pub add_integrities-Linked :
    (hs : List (Text × Text)) (page out : Text)
    → AreDistinct hs
    → AreClean hs
    → Linked (Reference (λ f. get_hash f hs)) page out ↔ (out ≡ add_integrities hs page)
add_integrities-Linked hs page out d clean =
    let (to, from) = replace_all-Linked (rules hs) page out (rules-AreSeparated hs d clean) in
    let e = add_integrities-replace_all hs page in
    (
      λ l. to (Linked-iff (Reference-Has hs) (rules-Reference hs d) l) ∙ sym e,
      λ o. Linked-iff (rules-Reference hs d) (Reference-Has hs) (from (o ∙ e)),
    )

-- The iterator gives each entry once, in any order.
abbrev pub IsOrder : (List (Text × Text) → List (Text × Text)) → Type 0
IsOrder iter =
    (hs : List (Text × Text))
    → AreDistinct hs
    → AreDistinct (iter hs) × ((f : Text) → get_hash f (iter hs) ≡ get_hash f hs)

module _ (tools : Tools) (p : PageInputs) (source : Text → Option Text) where
  -- A body that is the page with the script, the one text that has the integrity behind each reference
  -- to a file with a hash, and the hashes of the files that are no pages are those of their bodies.
  pub record HasIntegrity (o : Outputs) (f body : Text) : Type 0 where
    pub raw : Text
    pub read : source f ≡ some raw
    pub hashes : Text → Option Text
    pub of_bodies :
        (g : Text)
        → is_html g ≡ false
        → hashes g ≡ Option.map tools.sha256_base64 (o.out_dir (raw_path g))
    pub marked : Text
    pub minified : body ≡ tools.minify_html (html_cfg false) marked
    pub linked :
        (out : Text)
        → Linked
            (Reference hashes)
            (inject_script p.version_script_tag (tools.from_utf8_lossy raw))
            out
          ↔ (out ≡ marked)

  module _ (enabled : p.disable_sri ≡ false) (order : IsOrder p.iter)
      (names : (f raw : Text) → source f ≡ some raw → IsName f)
      (base64 : (s : Text) → Without b'"' (tools.sha256_base64 s)) where
    pub IsPage-HasIntegrity :
        {o : Outputs} {f body : Text}
        → ((g : Text) → Consistent tools o g)
        → IsPage tools p source o.file_hashes f body
        → HasIntegrity o f body
    IsPage-HasIntegrity {o} consistent i =
        let (distinct, same) = order i.hashes i.known.distinct in
        let page = inject_script p.version_script_tag (tools.from_utf8_lossy i.raw) in
        let clean : AreClean (p.iter i.hashes) = λ f h at.
          let k = i.known.known f h (sym (same f) ∙ at) in
          (names f k.raw k.read, subst (Without b'"') (sym k.hashed) (base64 k.bytes)) in
        record {
          raw = i.raw;
          read = i.read;
          hashes = λ f. get_hash f (p.iter i.hashes);
          of_bodies = λ g plain. same g ∙ i.same_hashes g plain ∙ (consistent g).hash_is;
          marked = add_integrities (p.iter i.hashes) page;
          minified = i.processed ∙ (unfold page_body in rw enabled refl);
          linked = λ out. add_integrities-Linked (p.iter i.hashes) page out distinct clean;
        }

    -- With SRI enabled, names of files without quotes and equals signs and hashes without quotes, after
    -- both passes: the body of a page is the minified text of the page with the version script in which
    -- what belongs to each reference to a file with a hash, by `href` or `src`, stands behind it and all
    -- else is as it was. There is one such text, whatever the order of the hashes. The hash of each file
    -- that is no page is that of its body.
    pub passes-HasIntegrity :
        (files : List Text) (first last : Outputs)
        → minify_compute_sha_and_compress tools source files no_outputs ≡ some first
        → update_html_sri_and_inject_update_js tools p source files first ≡ some last
        → (f body : Text) → is_html f ≡ true
        → last.out_dir (raw_path f) ≡ some body
        → HasIntegrity last f body
    passes-HasIntegrity files first last one two f body page at =
        let (consistent, made) = passes-AreMade tools p source files first last one two in
        elim (made f body at) [
          | inl i ↦ absurd (cc (page, i.plain))
          | inr i ↦ IsPage-HasIntegrity consistent i
        ]
