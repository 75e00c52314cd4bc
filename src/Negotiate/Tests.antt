-- ===== src/Negotiate/Tests.antt =====
-- Runs of the negotiation, with qualities as numbers of ten-thousandths, and the theorems at
-- concrete headers.
use mathlib.Core.List.Perm
use single_binary_static_web.Prelude.{
  ℕ, ◌+◌, ◌-◌, ◌*◌, ◌/◌, true, false, ◌&&◌, ◌≡◌, refl, ◌⊎◌, [], ◌∷◌, Option, none, some, arith, All,
  ltb, leb, ◌==◌, if◌then◌else◌, Text, codes, split_on,
}
use single_binary_static_web.Asset.{ContentEncoding, Embed, is_embedded}
use single_binary_static_web.Negotiate.{
  Float, Choice, choice, token_offer, initial, parse_accept_encoding,
}
use single_binary_static_web.Negotiate.Order.{IsOrdered, IsConnected}
use single_binary_static_web.Negotiate.Best.{
  NotBeating, IsOffered, parse_accept_encoding-best, parse_accept_encoding-embedded,
}
use single_binary_static_web.Negotiate.Invariance.{
  parse_accept_encoding-refused, parse_accept_encoding-perm,
}

-- The digits behind the point, each worth a tenth of the one before.
abbrev fraction : ℕ → Text → ℕ
fraction unit [] = 0
fraction unit (c ∷ s) = (c - b'0') * unit + fraction (unit / 10) s

abbrev decimal_parse : Text → Option ℕ
decimal_parse [] = none
decimal_parse (d ∷ []) = if leb b'0' d && leb d b'9' then some ((d - b'0') * 10000) else none
decimal_parse (d ∷ p ∷ s) = if p == b'.' then some ((d - b'0') * 10000 + fraction 1000 s) else none

abbrev decimal : Float
decimal = record {
  F = ℕ;
  parse = decimal_parse;
  gt = λ a b. ltb b a;
  eqb = λ a b. a == b;
  one = 10000;
  baseline = 1;
}

decimal-IsOrdered : IsOrdered decimal
decimal-IsOrdered = record {
  gt_irrefl = λ a. ground arith;
  gt_trans = λ a b c h k. ground arith;
  gt_eq = λ a b c h k. ground arith;
  eq_gt = λ a b c h k. ground arith;
  eq_trans = λ a b c h k. ground arith;
}

decimal-IsConnected : IsConnected decimal
decimal-IsConnected = record {
  base = refl;
  eq_symm = λ a b h. ground arith;
  connected = λ a b x h k. ground arith;
}

abbrev all_embedded : Embed
all_embedded = record { embed_gzip = true; embed_brotli = true; embed_zstd = true }

abbrev no_brotli : Embed
no_brotli = record { embed_gzip = true; embed_brotli = false; embed_zstd = true }

abbrev readable : Text → Option Text
readable value = some value

abbrev parse_text : Embed → Text → ContentEncoding
parse_text embed value = parse_accept_encoding decimal {V = Text} readable embed (some value)

multiple_picks_highest_quality :
    parse_text all_embedded (codes "gzip;q=0.5, br;q=1.0") ≡ ContentEncoding.brotli
unfolding parse_accept_encoding token_offer
multiple_picks_highest_quality = refl

quality_zero_ignored : parse_text all_embedded (codes "br;q=0") ≡ ContentEncoding.identity
unfolding parse_accept_encoding token_offer
quality_zero_ignored = refl

browser_like : parse_text all_embedded (codes "gzip, deflate, br") ≡ ContentEncoding.brotli
unfolding parse_accept_encoding token_offer
browser_like = refl

brotli_not_embedded :
    parse_text no_brotli (codes "gzip, deflate, br, *;q=0.1") ≡ ContentEncoding.gzip
unfolding parse_accept_encoding token_offer
brotli_not_embedded = refl

-- A wildcard beside a refused name still picks the refused encoding.
wildcard_overrides_refusal : parse_text all_embedded (codes "br;q=0, *") ≡ ContentEncoding.brotli
unfolding parse_accept_encoding token_offer
wildcard_overrides_refusal = refl

abbrev gzip_then_br : Text
gzip_then_br = codes "gzip, br"

abbrev br_then_gzip : Text
br_then_gzip = codes " br,gzip"

parse_accept_encoding-best_example :
    (c : Choice ℕ) × (parse_accept_encoding decimal readable all_embedded (some gzip_then_br)
      ≡ c.encoding)
    × All
        (λ t. NotBeating decimal c (token_offer decimal all_embedded t))
        (split_on b',' gzip_then_br)
    × ((c ≡ initial decimal)
        ⊎ IsOffered decimal all_embedded (initial decimal) c (split_on b',' gzip_then_br))
parse_accept_encoding-best_example =
    parse_accept_encoding-best decimal decimal-IsOrdered readable all_embedded gzip_then_br
      gzip_then_br refl

offered_is_embedded :
    is_embedded no_brotli (parse_accept_encoding decimal readable no_brotli (some gzip_then_br))
    ≡ true
offered_is_embedded = parse_accept_encoding-embedded decimal no_brotli readable (some gzip_then_br)

parse_accept_encoding-refused_example :
    parse_accept_encoding decimal readable all_embedded (some (codes "gzip,br;q=0,zstd"))
    ≡ parse_accept_encoding decimal readable all_embedded (some (codes "gzip,zstd"))
unfolding token_offer split_on
parse_accept_encoding-refused_example =
    parse_accept_encoding-refused decimal all_embedded decimal-IsOrdered readable
      (codes "gzip,br;q=0,zstd") (codes "gzip,zstd") (codes "gzip,br;q=0,zstd") (codes "gzip,zstd")
      (codes "gzip" ∷ []) (codes "zstd" ∷ []) (codes "br;q=0") (choice ContentEncoding.brotli 0 3)
      refl refl refl refl refl refl

parse_accept_encoding-perm_example :
    parse_accept_encoding decimal readable all_embedded (some gzip_then_br)
    ≡ parse_accept_encoding decimal readable all_embedded (some br_then_gzip)
unfolding split_on
parse_accept_encoding-perm_example =
    parse_accept_encoding-perm decimal all_embedded decimal-IsOrdered decimal-IsConnected readable
      gzip_then_br br_then_gzip gzip_then_br br_then_gzip refl refl
      (Perm.swap (codes " br") (codes "gzip") [])
