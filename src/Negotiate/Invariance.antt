-- ===== src/Negotiate/Invariance.antt =====
-- The choice of an encoding for headers with more tokens, or with their tokens in another order.
use mathlib.Core.Logic.{∥∥₁_elim}
use mathlib.Core.List.{Perm, Permᴰ}
use mathlib.Core.List.Permᴰ
use single_binary_static_web.Prelude.{
  ℕ, true, false, ◌≡◌, refl, sym, ap, ◌∙◌, subst, ◌⊎◌, inl, inr, List, [], ◌∷◌, ◌++◌, Option, none,
  some, arith, Bool-cases, All, All-get_elem?, is_empty, Text, split_on, trim,
}
use single_binary_static_web.Asset.{ContentEncoding, Embed}
use single_binary_static_web.Negotiate.{
  Float, Choice, name_params, quality, offer, token_offer, beats, consider, initial, scan,
  best_encoding, parse_accept_encoding,
}
use single_binary_static_web.Negotiate.Order.{IsOrdered, IsConnected}
use single_binary_static_web.Negotiate.Best.{
  NotBeating, IsOffered, beats-scan, All-scan, scan_cases,
}

module _ (f : Float) (embed : Embed) where
  scan-append :
      (best : Choice f.F) (xs ys : List Text)
      → scan f embed best (xs ++ ys) ≡ scan f embed (scan f embed best xs) ys
  unfolding scan
  scan-append best [] ys = refl
  scan-append best (x ∷ xs) ys = scan-append (consider f best (token_offer f embed x)) xs ys

  scan_skip :
      (best : Choice f.F) (t : Text) (ys : List Text) (c : Choice f.F)
      → token_offer f embed t ≡ some c
      → beats f c best ≡ false
      → scan f embed best (t ∷ ys) ≡ scan f embed best ys
  unfolding scan
  scan_skip best t ys c off low = ap (λ z. scan f embed z ys) (ap (consider f best) off ∙ rw low)

  -- A token whose offer does not beat the baseline, such as one of quality 0, changes nothing,
  -- wherever it stands in the header.
  pub parse_accept_encoding-refused :
      IsOrdered f
      → {V : Type 0} (to_str : V → Option Text) (v w : V) (value rest : Text) (xs ys : List Text)
        (t : Text) (c : Choice f.F)
      → to_str v ≡ some value
      → to_str w ≡ some rest
      → split_on b',' value ≡ xs ++ (t ∷ ys)
      → split_on b',' rest ≡ xs ++ ys
      → token_offer f embed t ≡ some c
      → beats f c (initial f) ≡ false
      → parse_accept_encoding f to_str embed (some v)
        ≡ parse_accept_encoding f to_str embed (some w)
  unfolding parse_accept_encoding best_encoding
  parse_accept_encoding-refused o to_str v w value rest xs ys t c ev ew sv sw off low =
      ap (best_encoding f embed) ev
      ∙ ap (λ l. (scan f embed (initial f) l).encoding) sv
      ∙ ap (λ (r : Choice f.F). r.encoding) same
      ∙ ap (λ l. (scan f embed (initial f) l).encoding) (sym sw)
      ∙ ap (best_encoding f embed) (sym ew)
    where
      same : scan f embed (initial f) (xs ++ (t ∷ ys)) ≡ scan f embed (initial f) (xs ++ ys)
      same =
          scan-append (initial f) xs (t ∷ ys)
          ∙ scan_skip (scan f embed (initial f) xs) t ys c off
              (beats-scan f o embed c (initial f) xs low)
          ∙ sym (scan-append (initial f) xs ys)

All-perm {ℓ κ} : {A : Type ℓ} (P : A → Type κ) {xs ys : List A} → Permᴰ xs ys → All P xs → All P ys
All-perm P Permᴰ.nil h = tt
All-perm P (Permᴰ.cons e d) (p, h) = (subst P e p, All-perm P d h)
All-perm P (Permᴰ.swap e e') (p, (q, h)) = (subst P e' q, (subst P e p, h))
All-perm P (Permᴰ.trans d d') h = All-perm P d' (All-perm P d h)

ContentEncoding-set : IsSet ContentEncoding
ContentEncoding-set = hlevel

abbrev rank : ContentEncoding → ℕ
rank ContentEncoding.identity = 0
rank ContentEncoding.gzip = 1
rank ContentEncoding.zstd = 2
rank ContentEncoding.brotli = 3

rank_inj : (a b : ContentEncoding) → rank a ≡ rank b → a ≡ b
rank_inj a b h = ground arith

module _ (f : Float) (embed : Embed) where
  abbrev OffersRanked : Option (Choice f.F) → Type 0
  OffersRanked none = Unit
  OffersRanked (some c) = c.pref ≡ rank c.encoding

  offer-ranked : (name : Text) (q : f.F) → OffersRanked (offer f embed name q)
  unfolding offer
  offer-ranked name q = ground arith

  token_offer-ranked : (token : Text) → OffersRanked (token_offer f embed token)
  unfolding token_offer
  token_offer-ranked token = elim (Bool-cases (is_empty (trim token))) [
    | inl empty ↦ rw empty tt
    | inr some_text ↦
        rw some_text
          (offer-ranked (name_params (trim token)).0 (quality f (name_params (trim token)).1))
  ]

  IsOffered-ranked :
      {start best : Choice f.F} {tokens : List Text}
      → IsOffered f embed start best tokens
      → best.pref ≡ rank best.encoding
  IsOffered-ranked i = subst OffersRanked i.offers (token_offer-ranked i.token)

  -- Two choices above the baseline, neither of which beats the other, are of one encoding.
  agree :
      IsConnected f
      → (a b : Choice f.F) → a.pref ≡ rank a.encoding
      → b.pref ≡ rank b.encoding
      → beats f a (initial f) ≡ true
      → beats f b (initial f) ≡ true
      → beats f a b ≡ false
      → beats f b a ≡ false
      → a.encoding ≡ b.encoding
  agree o a b ra rb ba bb ab ba' =
      rank_inj a.encoding b.encoding
        (ground (arith, o.connected a.q b.q f.baseline, o.eq_symm a.q b.q))

  module _ (o : IsOrdered f) (k : IsConnected f) where
    -- The last choices of two scans, each of which beats no offer of the other.
    settle :
        (xs ys : List Text)
        → ((c : Choice f.F)
            → All (λ t. NotBeating f c (token_offer f embed t)) xs
            → All (λ t. NotBeating f c (token_offer f embed t)) ys)
        → ((c : Choice f.F)
            → All (λ t. NotBeating f c (token_offer f embed t)) ys
            → All (λ t. NotBeating f c (token_offer f embed t)) xs)
        → (scan f embed (initial f) xs).encoding ≡ (scan f embed (initial f) ys).encoding
    settle xs ys there back =
        go (scan_cases f o embed (initial f) xs) (scan_cases f o embed (initial f) ys)
      where
        r : Choice f.F
        r = scan f embed (initial f) xs

        s : Choice f.F
        s = scan f embed (initial f) ys

        unbeaten :
            (c d : Choice f.F) (tokens : List Text)
            → All (λ t. NotBeating f c (token_offer f embed t)) tokens
            → IsOffered f embed (initial f) d tokens
            → beats f d c ≡ false
        unbeaten c d tokens h i =
            subst (NotBeating f c) i.offers
              (All-get_elem? (λ t. NotBeating f c (token_offer f embed t)) tokens i.index h i.at)

        s_under_r : IsOffered f embed (initial f) s ys → beats f s r ≡ false
        s_under_r = unbeaten r s ys (there r (All-scan f o embed (initial f) xs))

        r_under_s : IsOffered f embed (initial f) r xs → beats f r s ≡ false
        r_under_s = unbeaten s r xs (back s (All-scan f o embed (initial f) ys))

        go :
            (r ≡ initial f) ⊎ IsOffered f embed (initial f) r xs
            → (s ≡ initial f) ⊎ IsOffered f embed (initial f) s ys
            → r.encoding ≡ s.encoding
        go (inl p) (inl q) = ap (λ (c : Choice f.F). c.encoding) (p ∙ sym q)
        go (inl p) (inr i) =
            absurd (cc (i.better, subst (λ z. beats f s z ≡ false) p (s_under_r i)))
        go (inr i) (inl q) =
            absurd (cc (i.better, subst (λ z. beats f r z ≡ false) q (r_under_s i)))
        go (inr i) (inr j) =
            agree k r s (IsOffered-ranked i) (IsOffered-ranked j) i.better j.better (r_under_s i)
              (s_under_r j)

    -- Two readable headers whose tokens are the same up to order give the same encoding.
    pub parse_accept_encoding-perm :
        {V : Type 0} (to_str : V → Option Text) (v w : V) (value value' : Text)
        → to_str v ≡ some value
        → to_str w ≡ some value'
        → Perm (split_on b',' value) (split_on b',' value')
        → parse_accept_encoding f to_str embed (some v)
          ≡ parse_accept_encoding f to_str embed (some w)
    unfolding parse_accept_encoding best_encoding
    parse_accept_encoding-perm to_str v w value value' ev ew p =
        ap (best_encoding f embed) ev
        ∙ ∥∥₁_elim p (λ x y. ContentEncoding-set _ _ x y)
            (λ d. settle _ _ (λ c. All-perm _ d) (λ c. All-perm _ (Permᴰ.symm d)))
        ∙ ap (best_encoding f embed) (sym ew)
