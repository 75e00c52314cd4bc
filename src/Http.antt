-- ===== src/Http.antt =====
-- What the server uses of the crates `http` and `hyper`, as a parameter: header maps, and the checks
-- of status codes, header names and header values. `IsHttp` holds their documented behaviour.
use single_binary_static_web.Prelude.{
  ℕ, Bool, true, ◌≡◌, ◌≤◌, Option, none, some, if◌then◌else◌, Text, text_eq,
}

pub record Http : Type 1 where
  -- `HeaderMap`, with `HeaderMap::new`, `insert` and `get`
  pub Headers : Type 0
  pub new : Headers
  pub insert : Text → Text → Headers → Headers
  pub get : Text → Headers → Option Text
  -- whether `StatusCode::from_u16` gives a code
  pub is_status : ℕ → Bool
  -- whether `HeaderName::from_static` and `HeaderValue::from_static` do not panic
  pub is_name : Text → Bool
  pub is_value : Text → Bool

pub record IsHttp (http : Http) : Type 0 where
  pub get-new : (name : Text) → http.get name http.new ≡ none
  pub get-insert :
      (name other value : Text) (headers : http.Headers)
      → http.get other (http.insert name value headers)
        ≡ (if text_eq name other then some value else http.get other headers)
  pub status_range : (n : ℕ) → 100 ≤ n → n ≤ 999 → http.is_status n ≡ true
