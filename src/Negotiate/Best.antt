-- ===== src/Negotiate/Best.antt =====
-- The encoding that `parse_accept_encoding` returns, against the offers of the header.
use single_binary_static_web.Prelude.{
  ℕ, suc, true, false, ◌≡◌, refl, sym, ap, ◌∙◌, subst, ◌⊎◌, inl, inr, List, [], ◌∷◌, Option, none,
  some, arith, Bool-cases, All, get_elem?, is_empty, ◌>>=◌, Text, split_on, trim,
}
use single_binary_static_web.Asset.{Embed, is_embedded}
use single_binary_static_web.Negotiate.{
  Float, Choice, name_params, quality, offer, token_offer, beats, consider, initial, scan,
  best_encoding, parse_accept_encoding,
}
use single_binary_static_web.Negotiate.Order.{IsOrdered, beats_irrefl, beats_trans}

-- An offer that does not beat the choice.
abbrev pub NotBeating : (f : Float) → Choice f.F → Option (Choice f.F) → Type 0
NotBeating f best none = Unit
NotBeating f best (some c) = beats f c best ≡ false

-- A token of the list offers the choice, and it beats where the loop began.
pub record IsOffered (f : Float) (embed : Embed) (start best : Choice f.F) (tokens : List Text)
    : Type 0 where
  pub index : ℕ
  pub token : Text
  pub at : get_elem? tokens index ≡ some token
  pub offers : token_offer f embed token ≡ some best
  pub better : beats f best start ≡ true

module _ (f : Float) (o : IsOrdered f) where
  -- What does not beat the choice so far does not beat the next one.
  pub beats-consider :
      (c best : Choice f.F) (next : Option (Choice f.F))
      → beats f c best ≡ false
      → beats f c (consider f best next) ≡ false
  beats-consider c best none h = h
  beats-consider c best (some n) h = elim (Bool-cases (beats f n best)) [
    | inl won ↦ elim (Bool-cases (beats f c n)) [
      | inl over ↦ absurd (ground (arith, beats_trans f o c n best over won))
      | inr under ↦ ground arith
    ]
    | inr lost ↦ ground arith
  ]

  pub beats-scan :
      (embed : Embed) (c best : Choice f.F) (tokens : List Text)
      → beats f c best ≡ false
      → beats f c (scan f embed best tokens) ≡ false
  unfolding scan
  beats-scan embed c best [] h = h
  beats-scan embed c best (t ∷ ts) h =
      beats-scan embed c (consider f best (token_offer f embed t)) ts
        (beats-consider c best (token_offer f embed t) h)

  NotBeating-scan :
      (embed : Embed) (best : Choice f.F) (next : Option (Choice f.F)) (tokens : List Text)
      → NotBeating f (scan f embed (consider f best next) tokens) next
  NotBeating-scan embed best none tokens = tt
  NotBeating-scan embed best (some n) tokens = beats-scan embed n _ tokens own
    where
      own : beats f n (consider f best (some n)) ≡ false
      own = ground (arith, beats_irrefl f o n)

  pub All-scan :
      (embed : Embed) (best : Choice f.F) (tokens : List Text)
      → All (λ t. NotBeating f (scan f embed best tokens) (token_offer f embed t)) tokens
  unfolding scan
  All-scan embed best [] = tt
  All-scan embed best (t ∷ ts) = (
    NotBeating-scan embed best (token_offer f embed t) ts,
    All-scan embed (consider f best (token_offer f embed t)) ts,
  )

  consider_cases :
      (best : Choice f.F) (next : Option (Choice f.F))
      → (consider f best next ≡ best)
        ⊎ ((n : Choice f.F) × (next ≡ some n)
            × (consider f best next ≡ n)
            × (beats f n best ≡ true))
  consider_cases best none = inl refl
  consider_cases best (some n) = elim (Bool-cases (beats f n best)) [
    | inl won ↦ inr (n, refl, rw won, won)
    | inr lost ↦ inl (rw lost)
  ]

  -- The loop ends where it began, or with an offer of a token.
  pub scan_cases :
      (embed : Embed) (best : Choice f.F) (tokens : List Text)
      → (scan f embed best tokens ≡ best) ⊎ IsOffered f embed best (scan f embed best tokens) tokens
  unfolding scan
  scan_cases embed best [] = inl refl
  scan_cases embed best (t ∷ ts) =
      step (scan_cases embed next ts) (consider_cases best (token_offer f embed t))
    where
      next : Choice f.F
      next = consider f best (token_offer f embed t)

      last : Choice f.F
      last = scan f embed next ts

      step :
          (last ≡ next) ⊎ IsOffered f embed next last ts
          → (next ≡ best)
            ⊎ ((n : Choice f.F) × (token_offer f embed t ≡ some n)
                × (next ≡ n)
                × (beats f n best ≡ true))
          → (last ≡ best) ⊎ IsOffered f embed best last (t ∷ ts)
      step (inl same) (inl stay) = inl (same ∙ stay)
      step (inl same) (inr (n, off, is, won)) = inr (record {
        index = 0;
        token = t;
        at = refl;
        offers = off ∙ ap some (sym (same ∙ is));
        better = subst (λ z. beats f z best ≡ true) (sym (same ∙ is)) won;
      })
      step (inr i) (inl stay) = inr (record {
        index = suc i.index;
        token = i.token;
        at = i.at;
        offers = i.offers;
        better = subst (λ z. beats f last z ≡ true) stay i.better;
      })
      step (inr i) (inr (n, off, is, won)) = inr (record {
        index = suc i.index;
        token = i.token;
        at = i.at;
        offers = i.offers;
        better = beats_trans f o last n best (subst (λ z. beats f last z ≡ true) is i.better) won;
      })

  -- The encoding returned for a readable header is that of a choice which no offer of the header
  -- beats, and which is the identity at the baseline or the offer of one of the header's tokens.
  pub parse_accept_encoding-best :
      {V : Type 0} (to_str : V → Option Text) (embed : Embed) (v : V) (value : Text)
      → to_str v ≡ some value
      → (c : Choice f.F) × (parse_accept_encoding f to_str embed (some v) ≡ c.encoding)
        × All (λ t. NotBeating f c (token_offer f embed t)) (split_on b',' value)
        × ((c ≡ initial f) ⊎ IsOffered f embed (initial f) c (split_on b',' value))
  unfolding parse_accept_encoding
  parse_accept_encoding-best to_str embed v value e = (
    scan f embed (initial f) (split_on b',' value),
    ap (best_encoding f embed) e,
    All-scan embed (initial f) (split_on b',' value),
    scan_cases embed (initial f) (split_on b',' value),
  )

module _ (f : Float) (embed : Embed) where
  abbrev OffersEmbedded : Option (Choice f.F) → Type 0
  OffersEmbedded none = Unit
  OffersEmbedded (some c) = is_embedded embed c.encoding ≡ true

  offer-embedded : (name : Text) (q : f.F) → OffersEmbedded (offer f embed name q)
  unfolding offer
  offer-embedded name q = ground arith

  token_offer-embedded : (token : Text) → OffersEmbedded (token_offer f embed token)
  unfolding token_offer
  token_offer-embedded token = elim (Bool-cases (is_empty (trim token))) [
    | inl empty ↦ rw empty tt
    | inr some_text ↦
        rw some_text
          (offer-embedded (name_params (trim token)).0 (quality f (name_params (trim token)).1))
  ]

  scan-embedded :
      (best : Choice f.F) (tokens : List Text)
      → is_embedded embed best.encoding ≡ true
      → is_embedded embed (scan f embed best tokens).encoding ≡ true
  unfolding scan
  scan-embedded best [] h = h
  scan-embedded best (t ∷ ts) h =
      scan-embedded (consider f best (token_offer f embed t)) ts
        (keep (token_offer f embed t) (token_offer-embedded t))
    where
      keep :
          (next : Option (Choice f.F))
          → OffersEmbedded next
          → is_embedded embed (consider f best next).encoding ≡ true
      keep none k = h
      keep (some n) k = elim (Bool-cases (beats f n best)) [
        | inl won ↦ rw won k
        | inr lost ↦ rw lost h
      ]

  best_encoding-embedded :
      (value : Option Text) → is_embedded embed (best_encoding f embed value) ≡ true
  unfolding best_encoding
  best_encoding-embedded none = refl
  best_encoding-embedded (some value) = scan-embedded (initial f) (split_on b',' value) refl

  -- Whatever the header, the encoding returned is one whose bodies are embedded.
  pub parse_accept_encoding-embedded :
      {V : Type 0} (to_str : V → Option Text) (header : Option V)
      → is_embedded embed (parse_accept_encoding f to_str embed header) ≡ true
  unfolding parse_accept_encoding
  parse_accept_encoding-embedded to_str header = best_encoding-embedded (header >>= to_str)
