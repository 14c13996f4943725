-- ===== src/Gateway/Proxy.antt =====
-- gateway/src/services/proxy.rs: the check of an address with the upstream service. An address is
-- the text it is printed as. The HTTP client, the clock and the reading of a JSON number as a float
-- are parameters.
pub mod Check
use rust_web_fullstack.Prelude.{
  ℕ, Bool, true, false, not, ◌==◌, String, Text, codes, text_eq, trim_end, Option, none, some, List,
  [], ◌∷◌, ◌++◌, Result, ok, err, ◌>>=◌, ◌>>◌, ok_or, refuse_if, bind_option, if◌then◌else◌,
}
use rust_web_fullstack.Gateway.State.{GatewayState}
use rust_web_fullstack.Gateway.Events.{
  Json, null, boolean, number, string, array, object, Members, no_members, member, members,
  GatewayEvent, custom, publish_event,
}
use rust_web_fullstack.Auth.Error.{AppError, upstream_unavailable}
use rust_web_fullstack.Auth.Middleware.{is_success}

pub record ProxyCheckResponse (F : Type 0) : Type 0 where
  pub ip : Text
  pub country : Text
  pub proxy : Bool
  pub risk_score : F

-- The upstream's status, and its body, if that is JSON.
pub record Upstream (N : Type 0) : Type 0 where
  pub status : ℕ
  pub json : Option (Json N)

module _ {N : Type 0} where
  abbrev find : Text → Members N → Option (Json N)
  find key no_members = none
  find key (member name value rest) = if text_eq name key then some value else find key rest

  -- `Value::get` at a key, `as_str` and `as_bool`.
  abbrev pub get : String → Json N → Option (Json N)
  get key (object fields) = find (codes key) fields
  get key value = none

  abbrev pub as_str : Json N → Option Text
  as_str (string s) = some s
  as_str value = none

  abbrev pub as_bool : Json N → Option Bool
  as_bool (boolean b) = some b
  as_bool value = none

abbrev pub unwrap_or {ℓ} : {A : Type ℓ} → Option A → A → A
unwrap_or none default = default
unwrap_or (some a) default = a

-- The URL of an address, under the configured one without its trailing slashes.
unfoldable pub check_url : Text → Text → Text
check_url upstream ip = trim_end (λ c. c == 0x2f) upstream ++ (codes "/" ++ (ip ++ codes "/json/"))

module _ {N F : Type 0} (as_f64 : Json N → Option F) (zero_score : F) where
  abbrev pub country_of : Json N → Text
  country_of body = unwrap_or (bind_option (get "country_name" body) as_str) (codes "Unknown")

  abbrev pub proxy_of : Json N → Bool
  proxy_of body =
      unwrap_or (bind_option (bind_option (get "threat" body) (get "is_proxy")) as_bool) false

  abbrev pub score_of : Json N → F
  score_of body =
      unwrap_or (bind_option (bind_option (get "threat" body) (get "score")) as_f64) zero_score

  -- `send` is the client's answer to a GET; `none` is an error of the request.
  unfoldable pub fetch :
      (Text → Option (Upstream N)) → GatewayState → Text → Result (Json N) AppError
  unfolding check_url
  fetch send state ip = do
    upstream ←
        ok_or (upstream_unavailable "proxy request failed")
          (send (check_url state.proxy_upstream_url ip))
    refuse_if (not (is_success upstream.status))
        (upstream_unavailable "proxy upstream returned non-success status")
    ok_or (upstream_unavailable "proxy upstream response parse failed") upstream.json

  abbrev pub check_event : Text → Text → Json N → GatewayEvent N
  check_event timestamp ip body = custom "proxy_check" (
      object (
        members (
          ("timestamp", string timestamp)
          ∷ ("ip", string ip)
          ∷ ("country", string (country_of body))
          ∷ ("proxy", boolean (proxy_of body))
          ∷ [])))

  answer :
      Text
      → Text
      → List (GatewayEvent N)
      → Result (Json N) AppError
      → List (GatewayEvent N) × Result (ProxyCheckResponse F) AppError
  answer timestamp ip sent (err e) = (sent, err e)
  answer timestamp ip sent (ok body) = (
    publish_event sent (check_event timestamp ip body),
    ok (record {
      ip = ip;
      country = country_of body;
      proxy = proxy_of body;
      risk_score = score_of body;
    }),
  )

  -- `timestamp` is the printed time, `sent` the events on the channel.
  unfoldable pub check_handler :
      (Text → Option (Upstream N))
      → Text
      → GatewayState
      → Option Text
      → List (GatewayEvent N)
      → List (GatewayEvent N) × Result (ProxyCheckResponse F) AppError
  unfolding answer fetch
  check_handler send timestamp state ip sent =
      let parsed_ip = unwrap_or ip (codes "8.8.8.8") in
      answer timestamp parsed_ip sent (fetch send state parsed_ip)
