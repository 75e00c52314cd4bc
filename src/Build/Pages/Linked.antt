-- ===== src/Build/Pages/Linked.antt =====
-- A page beside the page with something added behind every text of a kind, and how one replacement
-- after the other makes it.
use single_binary_static_web.Prelude.{
  ℕ, zero, suc, ◌≤◌, ◌<◌, ◌↔◌, true, false, List, [], ◌∷◌, ◌++◌, ◌≡◌, refl, sym, ap, ap₂, ◌∙◌,
  subst, length, length-append, ◌⊎◌, inl, inr, Text, starts_with, append_assoc, append-nil,
  Bool-cases, arith,
}
use single_binary_static_web.Build.Pages.{replace, replace_from}
use single_binary_static_web.Build.Pages.Apart.{
  apart, differ-starts_with, replace-pattern, replace-other, replace-apart, replace-starts_with,
  starts_with-append,
}

-- What a rule adds, by the text that it adds to.
abbrev pub Rules : Type 1
Rules = (pattern added : Text) → Type 0

-- No rule's text starts this one.
abbrev pub StartsNone : Rules → Text → Type 0
StartsNone R s = (pattern added : Text) → R pattern added → starts_with s pattern ≡ false

-- From left to right, what a rule adds stands behind its text, and all else is as it was.
pub data Linked (R : Rules) : Text → Text → Type 0 where
  end : Linked R [] []
  reference :
      {rest out page linked : Text}
      → (pattern added : Text) → R pattern added
      → page ≡ pattern ++ rest
      → linked ≡ pattern ++ (added ++ out)
      → Linked R rest out
      → Linked R page linked
  other :
      {rest out : Text}
      → (c : ℕ) → StartsNone R (c ∷ rest)
      → Linked R rest out
      → Linked R (c ∷ rest) (c ∷ out)

abbrev pub Rule : Type 0
Rule = Text × Text

-- The rules of a list.
abbrev pub Has : List Rule → Rules
Has [] pattern added = ⊥
Has ((p, a) ∷ rules) pattern added = ((pattern ≡ p) × (added ≡ a)) ⊎ Has rules pattern added

pub Linked-iff :
    {R S : Rules}
    → ((p a : Text) → R p a → S p a)
    → ((p a : Text) → S p a → R p a)
    → {page out : Text} → Linked R page out
    → Linked S page out
Linked-iff to from end = end
Linked-iff to from (reference p a r e f l) = reference p a (to p a r) e f (Linked-iff to from l)
Linked-iff to from (other c none l) =
    other c (λ p a s. none p a (from p a s)) (Linked-iff to from l)

-- With no rules nothing is added.
pub Linked-none : {page out : Text} → Linked (Has []) page out → page ≡ out
Linked-none end = refl
Linked-none (reference p a r e f l) = absurd r
Linked-none (other c none l) = ap (λ t. c ∷ t) (Linked-none l)

-- A text that is apart from all rules' texts is copied.
pub Linked-copy :
    {R : Rules} (w : Text)
    → ((p a : Text) → R p a → apart w [] p ≡ true)
    → {page out : Text} → Linked R page out
    → Linked R (w ++ page) (w ++ out)
unfolding apart
Linked-copy [] h l = l
Linked-copy {R} (x ∷ w) h {page} l =
    other x
      (λ p a r.
        subst (λ t. starts_with ((x ∷ t) ++ page) p ≡ false) (append-nil w)
          (differ-starts_with (x ∷ (w ++ [])) page p (let e = h p a r in ground arith)))
      (Linked-copy w (λ p a r. let e = h p a r in ground arith) l)

-- The rule cannot meet the others: its text and theirs, and what it puts in and theirs, are apart.
abbrev pub Separated : Rule → Rules → Type 0
Separated (pattern, added) R =
    (p a : Text) → R p a → (apart p [] pattern ≡ true) × (apart (pattern ++ added) [] p ≡ true)

-- What the rule and the others do to a page, the others do after the rule has replaced its text.
pub replace-Linked :
    (c : ℕ) (q added : Text) (rules : List Rule)
    → Separated (c ∷ q, added) (Has rules)
    → {page out : Text} → Linked (Has ((c ∷ q, added) ∷ rules)) page out
    → Linked (Has rules) (replace page (c ∷ q) ((c ∷ q) ++ added)) out
replace-Linked c q added rules sep end = unfold replace_from in end
replace-Linked c q added rules sep
      (reference {rest} {out} {page} {linked} p a (inl (ep, ea)) e f l) =
    let rep = (c ∷ q) ++ added in
    let copied = Linked-copy rep (λ p a r. (sep p a r).1) (replace-Linked c q added rules sep l) in
    subst (λ t. Linked (Has rules) t linked)
      (sym (
        ap (λ t. replace t (c ∷ q) rep) (e ∙ ap (λ t. t ++ rest) ep)
        ∙ replace-pattern c q rep rest))
      (subst (λ t. Linked (Has rules) (rep ++ replace rest (c ∷ q) rep) t)
        (append_assoc (c ∷ q) added out ∙ sym (f ∙ ap₂ (λ x y. x ++ (y ++ out)) ep ea)) copied)
replace-Linked c q added rules sep (reference {rest} p a (inr r) e f l) =
    let rep = (c ∷ q) ++ added in
    reference p a r (ap (λ t. replace t (c ∷ q) rep) e ∙ replace-apart c q rep p rest (sep p a r).0)
      f (replace-Linked c q added rules sep l)
replace-Linked c q added rules sep (other {rest} {out} d none l) =
    let rep = (c ∷ q) ++ added in
    let passed = replace-other c q rep d rest (none (c ∷ q) added (inl (refl, refl))) in
    subst (λ t. Linked (Has rules) t (d ∷ out)) (sym passed)
      (other d
        (λ p a r.
          subst (λ t. starts_with t p ≡ false) passed
            (replace-starts_with c q added p (d ∷ rest) (sep p a r).0 (none p a (inr r))))
        (replace-Linked c q added rules sep l))

-- A rule that starts the text, if there is one.
find_rule :
    (rules : List Rule) (s : Text)
    → ((p : Text) × (a : Text) × Has rules p a × (starts_with s p ≡ true))
      ⊎ StartsNone (Has rules) s
find_rule [] s = inr (λ p a r. absurd r)
find_rule ((p, a) ∷ rules) s = elim (Bool-cases (starts_with s p)) [
  | inl found ↦ inl (p, a, inl (refl, refl), found)
  | inr missing ↦ elim (find_rule rules s) [
    | inl (q, b, r, found) ↦ inl (q, b, inr r, found)
    | inr none ↦ inr (λ q b r. elim r [
      | inl (e, _) ↦ subst (λ t. starts_with s t ≡ false) (sym e) missing
      | inr later ↦ none q b later
    ])
  ]
]

-- Every page has its result.
Linked-total :
    (rules : List Rule)
    → ((p a : Text) → Has rules p a → 0 < length p)
    → (fuel : ℕ) (page : Text) → length page ≤ fuel
    → (out : Text) × Linked (Has rules) page out
Linked-total rules pos fuel [] h = ([], end)
Linked-total rules pos zero (c ∷ page) h = absurd (omega arith)
Linked-total rules pos (suc fuel) (c ∷ page) h = elim (find_rule rules (c ∷ page)) [
  | inl (p, a, r, found) ↦
      let (rest, e) = starts_with-append (c ∷ page) p found in
      let (out, l) =
        Linked-total rules pos fuel rest
          (omega (arith, pos p a r, ap length e, length-append p rest)) in
      (p ++ (a ++ out), reference p a r e refl l)
  | inr none ↦
      let (out, l) = Linked-total rules pos fuel page (omega arith) in (c ∷ out, other c none l)
]

-- The replacements of a list of rules, one after the other.
unfoldable pub replace_all : List Rule → Text → Text
replace_all [] page = page
replace_all ((p, a) ∷ rules) page = replace_all rules (replace page p (p ++ a))

-- Rules of a list whose texts are not empty and that cannot meet.
abbrev pub AreSeparated : List Rule → Type 0
AreSeparated [] = Unit
AreSeparated ((p, a) ∷ rules) =
    ((c : ℕ) × (q : Text) × (p ≡ c ∷ q)) × Separated (p, a) (Has rules) × AreSeparated rules

Linked-replace_all :
    (rules : List Rule) {page out : Text}
    → AreSeparated rules
    → Linked (Has rules) page out
    → out ≡ replace_all rules page
unfolding replace_all
Linked-replace_all [] sep l = sym (Linked-none l)
Linked-replace_all ((p, a) ∷ rules) {page} {out} ((c, q, e), sep, seps) l =
    let first =
      replace-Linked c q a rules (subst (λ t. Separated (t, a) (Has rules)) e sep)
        (subst (λ t. Linked (Has ((t, a) ∷ rules)) page out) e l) in
    Linked-replace_all rules seps first
    ∙ ap (λ t. replace_all rules (replace page t (t ++ a))) (sym e)

separated_pos :
    (rules : List Rule) → AreSeparated rules → (p a : Text) → Has rules p a → 0 < length p
separated_pos [] sep p a r = absurd r
separated_pos ((q, b) ∷ rules) ((c, t, e), sep, seps) p a (inl (ep, ea)) =
    omega (arith, ap length e, ap length ep)
separated_pos ((q, b) ∷ rules) ((c, t, e), sep, seps) p a (inr r) = separated_pos rules seps p a r

-- The replacements give exactly the page with what each rule adds behind its text, at every place.
pub replace_all-Linked :
    (rules : List Rule) (page out : Text)
    → AreSeparated rules
    → Linked (Has rules) page out ↔ (out ≡ replace_all rules page)
replace_all-Linked rules page out sep =
    let (made, l) = Linked-total rules (separated_pos rules sep) (length page) page (omega arith) in
    (
      λ l. Linked-replace_all rules sep l,
      λ e. subst (λ t. Linked (Has rules) page t) (Linked-replace_all rules sep l ∙ sym e) l,
    )
