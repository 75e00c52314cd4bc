-- ===== src/Negotiate.antt =====
-- `parse_accept_encoding` of rust-server/src/response.rs: the choice of a content encoding by the
-- request's `Accept-Encoding` header. The numbers of type `f32` are a parameter, as is the `to_str`
-- of a header value, which gives nothing where the value is not visible ASCII.
pub mod Order
pub mod Best
pub mod Invariance
mod Tests
use single_binary_static_web.Prelude.{
  ℕ, Bool, true, false, ◌&&◌, ◌||◌, List, [], ◌∷◌, Option, none, some, ◌>>=◌, unwrap_or, ltb,
  if◌then◌else◌, is_empty, find, Text, codes, text_eq, starts_with, strip_prefix, split_on,
  split_once, trim,
}
use single_binary_static_web.Asset.{ContentEncoding, Embed}

-- `f32`: `gt` is `>`, `eqb` is `==`, `parse` is `str::parse`; `one` is 1.0, and `baseline` 0.0001.
pub record Float : Type 1 where
  pub F : Type 0
  pub parse : Text → Option F
  pub gt : F → F → Bool
  pub eqb : F → F → Bool
  pub one : F
  pub baseline : F

-- The tuple `(ContentEncoding, f32, u8)`; also the three variables `best_encoding`, `best_q` and
-- `best_pref` of the loop.
pub record Choice (F : Type 0) : Type 0 where
  pub encoding : ContentEncoding
  pub q : F
  pub pref : ℕ

abbrev pub choice : {F : Type 0} → ContentEncoding → F → ℕ → Choice F
choice e q p = record { encoding = e; q = q; pref = p }

-- The name of the encoding and its parameters, both trimmed: `"br;q=0.9"` to `"br"` and `"q=0.9"`.
pub name_params : Text → Text × Option Text
unfolding split_once trim
name_params token = elim (split_once b';' token) [
  | none ↦ (token, none)
  | some (name, rest) ↦ (trim name, some (trim rest))
]

-- The value behind the first parameter that begins `q=`, as text.
pub quality_text : Text → Option Text
unfolding split_on trim starts_with strip_prefix
quality_text params = do
  part ← find (λ part. starts_with (trim part) (codes "q=")) (split_on b';' params)
  strip_prefix (trim part) (codes "q=")

module _ (f : Float) where
  open f use {F, parse, gt, eqb, one, baseline}

  -- `q`: 1.0 where there is no `q=`, or no number behind it
  pub quality : Option Text → F
  unfolding quality_text
  quality params = unwrap_or (do p ← params; v ← quality_text p; parse v) one

  -- What a name asks for: brotli before zstd before gzip before identity; `*` is the best encoding
  -- that is embedded. An encoding that is not embedded counts as unknown.
  pub offer : Embed → Text → F → Option (Choice F)
  unfolding text_eq
  offer embed name q =
      if text_eq name (codes "br") && embed.embed_brotli
      then some (choice ContentEncoding.brotli q 3)
      else if text_eq name (codes "zstd") && embed.embed_zstd
      then some (choice ContentEncoding.zstd q 2)
      else if (text_eq name (codes "gzip") || text_eq name (codes "x-gzip")) && embed.embed_gzip
      then some (choice ContentEncoding.gzip q 1)
      else if text_eq name (codes "identity")
      then some (choice ContentEncoding.identity q 0)
      else if text_eq name (codes "*")
      then (if embed.embed_brotli
          then some (choice ContentEncoding.brotli q 3)
          else if embed.embed_zstd
          then some (choice ContentEncoding.zstd q 2)
          else if embed.embed_gzip
          then some (choice ContentEncoding.gzip q 1)
          else some (choice ContentEncoding.identity q 0))
      else none

  -- The choice that a token of the header stands for; none for an empty or unknown one.
  pub token_offer : Embed → Text → Option (Choice F)
  unfolding trim name_params quality offer
  token_offer embed token =
      let t = trim token in
      let (name, params) = name_params t in
      if is_empty t then none else offer embed name (quality params)

  -- The test `q > best_q || (q == best_q && pref > best_pref)`
  abbrev pub beats : Choice F → Choice F → Bool
  beats c best = gt c.q best.q || (eqb c.q best.q && ltb best.pref c.pref)

  abbrev pub consider : Choice F → Option (Choice F) → Choice F
  consider best none = best
  consider best (some c) = if beats c best then c else best

  abbrev pub initial : Choice F
  initial = choice ContentEncoding.identity baseline 0

  -- The loop over the tokens, from the best choice so far.
  pub scan : Embed → Choice F → List Text → Choice F
  scan embed best [] = best
  scan embed best (token ∷ tokens) = scan embed (consider best (token_offer embed token)) tokens

  -- The body of the function below its early return.
  pub best_encoding : Embed → Option Text → ContentEncoding
  unfolding split_on scan
  best_encoding embed none = ContentEncoding.identity
  best_encoding embed (some value) = (scan embed initial (split_on b',' value)).encoding

  pub parse_accept_encoding : {V : Type 0} → (V → Option Text) → Embed → Option V → ContentEncoding
  unfolding best_encoding
  parse_accept_encoding to_str embed header_value = best_encoding embed (header_value >>= to_str)
