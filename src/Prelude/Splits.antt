-- ===== src/Prelude/Splits.antt =====
-- Splitting what was joined.
use mathlib.Core.Path.{◌≡◌, refl, sym, ap, ◌∙◌}
use mathlib.Core.Bool.{false}
use mathlib.Core.Option.{some}
use mathlib.Core.List.{List, [], ◌∷◌, ◌++◌, map, append_assoc}
use Prim.Native.Nat.{ℕ}
use native.Mathlib.Omega.{arith}
use single_binary_static_web.Prelude.Bools.{◌==◌, ==_iff}
use single_binary_static_web.Prelude.Lists.{any, All, All-append}
use single_binary_static_web.Prelude.Texts.{Text, split_on, split_once, push_front, join}

-- No byte of the text is that one.
abbrev pub Without : ℕ → Text → Type 0
Without sep = All (λ c. (c == sep) ≡ false)

pub Without-any : (sep : ℕ) (s : Text) → any (λ c. c == sep) s ≡ false → Without sep s
Without-any sep [] h = tt
Without-any sep (c ∷ s) h = (ground arith, Without-any sep s (ground arith))

split_on-append_sep :
    (sep : ℕ) (s t : Text) → Without sep s → split_on sep (s ++ sep ∷ t) ≡ s ∷ split_on sep t
unfolding split_on
split_on-append_sep sep [] t h = rw ((==_iff sep sep).1 refl) refl
split_on-append_sep sep (c ∷ s) t (other, h) =
    rw other (ap (push_front c) (split_on-append_sep sep s t h))

split_on-Without : (sep : ℕ) (s : Text) → Without sep s → split_on sep s ≡ s ∷ []
unfolding split_on
split_on-Without sep [] h = refl
split_on-Without sep (c ∷ s) (other, h) = rw other (ap (push_front c) (split_on-Without sep s h))

-- Parts without the separator that are joined by it and a padding are split into the same parts, the
-- padding in front of all but the first; `x` stands in front of the first.
pub split_on-join :
    (sep : ℕ) (pad x p : Text) (ps : List Text)
    → Without sep pad
    → Without sep x
    → Without sep p
    → All (Without sep) ps
    → split_on sep (x ++ join (sep ∷ pad) (p ∷ ps)) ≡ (x ++ p) ∷ map (λ q. pad ++ q) ps
unfolding join
split_on-join sep pad x p [] hpad hx hp h = split_on-Without sep (x ++ p) (All-append _ x p hx hp)
split_on-join sep pad x p (q ∷ ps) hpad hx hp (hq, h) =
    ap (split_on sep) (sym (append_assoc x p _))
    ∙ split_on-append_sep sep (x ++ p) (pad ++ join (sep ∷ pad) (q ∷ ps)) (All-append _ x p hx hp)
    ∙ ap (λ l. (x ++ p) ∷ l) (split_on-join sep pad pad q ps hpad hpad hq h)

pub map-nil_append : (ts : List Text) → map (λ q. [] ++ q) ts ≡ ts
map-nil_append [] = refl
map-nil_append (t ∷ ts) = ap (λ l. t ∷ l) (map-nil_append ts)

-- Parts without the separator, joined by it alone.
pub split_on-join_bare :
    (sep : ℕ) (p : Text) (ps : List Text)
    → Without sep p
    → All (Without sep) ps
    → split_on sep (join (sep ∷ []) (p ∷ ps)) ≡ p ∷ ps
split_on-join_bare sep p ps hp h =
    split_on-join sep [] [] p ps tt tt hp h ∙ ap (λ l. p ∷ l) (map-nil_append ps)

pub split_once-append_sep :
    (sep : ℕ) (s t : Text) → Without sep s → split_once sep (s ++ sep ∷ t) ≡ some (s, t)
unfolding split_once
split_once-append_sep sep [] t h = rw ((==_iff sep sep).1 refl) refl
split_once-append_sep sep (c ∷ s) t (other, h) = rw (other, split_once-append_sep sep s t h) refl
