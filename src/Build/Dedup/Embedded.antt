-- ===== src/Build/Dedup/Embedded.antt =====
-- Header sets up to the order of their headers, and their keys.
use mathlib.Core.Quot
use mathlib.Core.Quot.{Quot, Quot-set}
use mathlib.Core.List.{Perm}
use mathlib.Core.Path.{fun_ext}
use single_binary_static_web.Prelude.{◌≡◌, ◌↔◌, ap, List, All, Text}
use single_binary_static_web.Asset.{Header}
use single_binary_static_web.Build.Dedup.{header_set_key}
use single_binary_static_web.Build.Dedup.Order.{IsHeader, header_set_key-perm_iff}

-- The headers of an asset, with what makes their key readable.
abbrev pub Headers : Type 0
Headers = (hs : List Header) × All IsHeader hs

abbrev pub SameHeaders : Headers → Headers → Type 0
SameHeaders xs ys = Perm xs.0 ys.0

-- What an entry of `header_sets` stands for.
abbrev pub HeaderSet : Type 0
HeaderSet = Quot SameHeaders

Text-set : IsSet Text
Text-set = hlevel

-- The key does not depend on the order.
pub key : HeaderSet → Text
unfolding header_set_key
key =
    Quot.lift Text-set (λ (xs : Headers). header_set_key xs.0)
      (λ xs ys p. (header_set_key-perm_iff xs.0 ys.0 xs.1 ys.1).1 p)

key-injective : (p q : HeaderSet) → key p ≡ key q → p ≡ q
unfolding key
key-injective =
    Quot.ind (λ p f g. fun_ext (λ q. fun_ext (λ e. Quot-set p q (f q e) (g q e))))
      (λ xs.
        Quot.ind (λ q f g. fun_ext (λ e. Quot-set _ q (f e) (g e)))
          (λ ys e. Quot.sound ((header_set_key-perm_iff xs.0 ys.0 xs.1 ys.1).0 e)))

-- The keys are an embedding of the header sets up to order: two sets are the same exactly if their
-- keys are.
pub key-embeds : (p q : HeaderSet) → (key p ≡ key q) ↔ (p ≡ q)
key-embeds p q = (key-injective p q, ap key)
