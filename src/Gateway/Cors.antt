-- ===== src/Gateway/Cors.antt =====
-- gateway/src/cors.rs: the CORS layer of an origin list, and the default CSP header. Parsing a
-- header value and building tower-http's layer are parameters.
pub mod Origins
use rust_web_fullstack.Prelude.{
  ℕ, Bool, true, false, not, ◌==◌, Text, codes, text_eq, trim, is_empty, Option, none, some, List,
  [], ◌∷◌, map, keep, any, String, if◌then◌else◌,
}

pub data AllowOrigin : Type 0 where
  any_origin : AllowOrigin
  listed : List Text → AllowOrigin

-- `Any`, or what the request asks for.
pub data Allowed : Type 0 where
  anything mirrored : Allowed

pub record CorsLayer : Type 0 where
  pub allow_credentials : Bool
  pub allow_methods : Allowed
  pub allow_headers : Allowed
  pub allow_origin : AllowOrigin

pub record CorsLibrary : Type 0 where
  -- `HeaderValue::from_str`, the value as its text.
  pub parse : Text → Option Text
  -- Whether `AllowOrigin::list` panics at a list.
  pub list_panics : List Text → Bool

abbrev pub comma : ℕ
comma = 0x2c

abbrev onto_first : ℕ → List Text → List Text
onto_first c [] = (c ∷ []) ∷ []
onto_first c (w ∷ ws) = (c ∷ w) ∷ ws

-- `str::split` at a character.
abbrev pub split : ℕ → Text → List Text
split at [] = [] ∷ []
split at (c ∷ s) = if c == at then [] ∷ split at s else onto_first c (split at s)

-- `Iterator::filter_map`.
abbrev pub filter_map : (Text → Option Text) → List Text → List Text
filter_map f [] = []
filter_map f (w ∷ ws) = elim (f w) [ none ↦ filter_map f ws | some v ↦ v ∷ filter_map f ws ]

module _ (lib : CorsLibrary) where
  -- `none` is a panic.
  unfoldable pub credentialed : List Text → Option CorsLayer
  credentialed origins =
      if lib.list_panics origins
      then none
      else some (record {
        allow_credentials = true;
        allow_methods = mirrored;
        allow_headers = mirrored;
        allow_origin = listed origins;
      })

  -- The origins of a trimmed list.
  unfoldable pub origins : Text → List Text
  origins trimmed =
      filter_map lib.parse (keep (λ o. not (is_empty o)) (map trim (split comma trimmed)))

  unfoldable pub cors_layer : Text → Option CorsLayer
  unfolding credentialed origins
  cors_layer allowed_origins =
      let trimmed = trim allowed_origins in
      if text_eq trimmed (codes "*")
      then some (record {
        allow_credentials = false;
        allow_methods = anything;
        allow_headers = anything;
        allow_origin = any_origin;
      })
      else credentialed (origins trimmed)

abbrev pub Headers : Type 0
Headers = List (String × String)

abbrev pub policy : String
policy =
    "default-src 'self'; script-src 'self' 'unsafe-inline'; style-src 'self' 'unsafe-inline'; img-src 'self' data:; connect-src 'self' ws: wss:; object-src 'none'; base-uri 'self'; frame-ancestors 'none'; form-action 'self'"

abbrev pub contains_key : String → Headers → Bool
contains_key name = any (λ h. text_eq (codes h.0) (codes name))

-- The headers of the response after `csp_middleware`. `insert` of a name that is not there adds it.
unfoldable pub csp_middleware : Headers → Headers
csp_middleware headers =
    if not (contains_key "content-security-policy" headers)
    then ("content-security-policy", policy) ∷ headers
    else headers
