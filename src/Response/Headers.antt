-- ===== src/Response/Headers.antt =====
-- The response that is made of an asset, header by header.
use single_binary_static_web.Prelude.{
  true, ◌≡◌, refl, ap, ◌∙◌, List, [], ◌∷◌, Option, none, some, if◌then◌else◌, All, Text, text_eq,
}
use single_binary_static_web.Asset.{ContentEncoding, Header, Asset}
use single_binary_static_web.Http.{Http, IsHttp}
use single_binary_static_web.Response.{
  Response, insert_all, body_for_encoding, headers_for_encoding, response_for_asset,
}

-- The value of the last header of that name, or `found` where there is none.
abbrev pub last_value : Text → List Header → Option Text → Option Text
last_value name [] found = found
last_value name ((k, v) ∷ rest) found =
    last_value name rest (if text_eq k name then some v else found)

-- Names and values that `from_static` takes.
abbrev pub AreStatic : Http → List Header → Type 0
AreStatic http = All (λ (h : Header). (http.is_name h.0 ≡ true) × (http.is_value h.1 ≡ true))

module _ (http : Http) (laws : IsHttp http) where
  pub insert_all-get :
      (slice : List Header) (headers : http.Headers)
      → AreStatic http slice
      → (all : http.Headers) × (insert_all http slice headers ≡ some all)
        × ((name : Text) → http.get name all ≡ last_value name slice (http.get name headers))
  unfolding insert_all
  insert_all-get [] headers ok = (headers, refl, λ name. refl)
  insert_all-get ((k, v) ∷ rest) headers ((n, w), ok) =
      let (all, done, gets) = insert_all-get rest (http.insert k v headers) ok in
      (
        all,
        rw (n, w) done,
        λ name. gets name ∙ ap (last_value name rest) (laws.get-insert k name v headers),
      )

  -- An asset with a status code in range and static headers is answered without a panic: by its
  -- status code, the body of the encoding, and each header of the encoding's slice under its name.
  pub response_for_asset_complete :
      (asset : Asset) (encoding : ContentEncoding)
      → http.is_status asset.status_code ≡ true
      → AreStatic http (headers_for_encoding asset encoding)
      → (r : Response http Text) × (response_for_asset http asset encoding ≡ some r)
        × (r.status ≡ asset.status_code)
        × (r.body ≡ body_for_encoding asset encoding)
        × ((name : Text)
            → http.get name r.headers ≡ last_value name (headers_for_encoding asset encoding) none)
  unfolding response_for_asset body_for_encoding
  response_for_asset_complete asset encoding ok static =
      let (all, done, gets) =
        insert_all-get (headers_for_encoding asset encoding) http.new static in
      (
        record {
          status = asset.status_code;
          headers = all;
          body = body_for_encoding asset encoding;
        },
        rw done (rw ok refl),
        refl,
        refl,
        λ name.
            gets name
            ∙ ap (last_value name (headers_for_encoding asset encoding)) (laws.get-new name),
      )
