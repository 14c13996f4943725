-- ===== src/Gateway/Proxy/Check.antt =====
-- What a check of an address answers, and what the subscribers of the events see of it:
-- gateway/src/services/proxy.rs with gateway/src/sse.rs.
use rust_web_fullstack.Prelude.{
  ◌≤◌, ◌<◌, leb, leb→gt, String, Bool, bind_option, trim_end, ◌==◌, ◌≢◌, false, Text, codes, Option,
  none, some, List, [], ◌∷◌, ◌++◌, map, Result, ok, err, ◌≡◌, refl, ap, ◌⊎◌, inl, inr, arith,
  Option-cases, Bool-cases, Result-cases,
}
use rust_web_fullstack.Gateway.State.{GatewayState}
use rust_web_fullstack.Gateway.Events.{
  Json, null, boolean, number, string, array, object, no_members, member, custom, GatewayEvent,
  Frame, arrived, frame, sse_handler, publish_event,
}
use rust_web_fullstack.Auth.Error.{AppError, into_response}
use rust_web_fullstack.Auth.Middleware.{is_success}
use rust_web_fullstack.Gateway.Proxy.{
  get, ProxyCheckResponse, Upstream, check_url, country_of, proxy_of, score_of, fetch, check_event,
  answer, unwrap_or, check_handler,
}

module _ {N : Type 0} (serialize : Json N → Option Text) where
  -- The frames of a subscriber that does not lag.
  abbrev pub frames : List (GatewayEvent N) → List Frame
  frames sent = sse_handler serialize (map arrived sent)

  frames-append :
      (sent : List (GatewayEvent N)) (event : GatewayEvent N)
      → frames (publish_event sent event) ≡ frames sent ++ frame serialize event ∷ []
  unfolding sse_handler publish_event
  frames-append [] event = refl
  frames-append (e ∷ sent) event = ap (◌∷◌ (frame serialize e)) (frames-append sent event)

-- What stands in a JSON value under these keys, one inside the other.
abbrev pub at : {N : Type 0} → List String → Json N → Option (Json N)
at [] value = some value
at (key ∷ keys) value = bind_option (get key value) (at keys)

module _ {N F : Type 0} (as_f64 : Json N → Option F) (zero_score : F)
    (serialize : Json N → Option Text) (send : Text → Option (Upstream N)) (timestamp : Text)
    (state : GatewayState) (ip : Text) (sent : List (GatewayEvent N)) where
  abbrev url : Text
  url = trim_end (λ c. c == 0x2f) state.proxy_upstream_url ++ (codes "/" ++ (ip ++ codes "/json/"))

  -- The country's name if the JSON has it as a text, and `Unknown` if not.
  abbrev IsCountry : Json N → Text → Type 0
  IsCountry body country =
      (at ("country_name" ∷ []) body ≡ some (string country))
      ⊎ (((s : Text) → at ("country_name" ∷ []) body ≢ some (string s))
          × (country ≡ codes "Unknown"))

  -- Whether the address is a proxy if the JSON says so as a Boolean, and no if not.
  abbrev IsProxy : Json N → Bool → Type 0
  IsProxy body proxy =
      (at ("threat" ∷ "is_proxy" ∷ []) body ≡ some (boolean proxy))
      ⊎ (((b : Bool) → at ("threat" ∷ "is_proxy" ∷ []) body ≢ some (boolean b)) × (proxy ≡ false))

  -- The score if the JSON has it as a number that reads as a float, and zero if not.
  abbrev IsScore : Json N → F → Type 0
  IsScore body score =
      (bind_option (at ("threat" ∷ "score" ∷ []) body) as_f64 ≡ some score)
      ⊎ ((bind_option (at ("threat" ∷ "score" ∷ []) body) as_f64 ≡ none) × (score ≡ zero_score))

  -- An answer for this address that reports what the JSON says.
  pub record IsReport (body : Json N) (response : ProxyCheckResponse F) : Type 0 where
    pub address : response.ip ≡ ip
    pub country : IsCountry body response.country
    pub proxy : IsProxy body response.proxy
    pub risk_score : IsScore body response.risk_score

  -- The event that tells of an answer.
  abbrev told : ProxyCheckResponse F → GatewayEvent N
  told response = custom "proxy_check" (
      object (
        member (codes "timestamp") (string timestamp) (
          member (codes "ip") (string ip) (
            member (codes "country") (string response.country)
              (member (codes "proxy") (boolean response.proxy) no_members)))))

  abbrev HasFailed : Upstream N → Type 0
  HasFailed reply = (reply.status < 200) ⊎ (300 ≤ reply.status) ⊎ (reply.json ≡ none)

  -- How a check ends.
  pub data Checked (events : List (GatewayEvent N))
      (result : Result (ProxyCheckResponse F) AppError) : Type 0 where
    reported :
        (reply : Upstream N) (body : Json N)
        → send url ≡ some reply
        → (200 ≤ reply.status) × (reply.status < 300)
        → reply.json ≡ some body
        → (response : ProxyCheckResponse F) → result ≡ ok response
        → IsReport body response
        → frames serialize events ≡ frames serialize sent ++ frame serialize (told response) ∷ []
        → Checked events result
    unreachable :
        (e : AppError)
        → ((reply : Upstream N) → send url ≡ some reply → HasFailed reply)
        → result ≡ err e
        → (into_response e).status ≡ 502
        → events ≡ sent
        → Checked events result

  abbrev Fetched : Json N → Type 0
  Fetched body =
      (reply : Upstream N) × (send url ≡ some reply)
      × ((200 ≤ reply.status) × (reply.status < 300))
      × (reply.json ≡ some body)

  fetch_ok : (body : Json N) → fetch as_f64 zero_score send state ip ≡ ok body → Fetched body
  unfolding fetch check_url
  fetch_ok body e = elim (Option-cases (send url)) [
    | inl missing ↦ ground arith
    | inr (reply, got) ↦ (reply, got, (ground arith, ground arith), ground arith)
  ]

  fetch_err :
      (e : AppError)
      → fetch as_f64 zero_score send state ip ≡ err e
      → ((into_response e).status ≡ 502)
        × ((reply : Upstream N) → send url ≡ some reply → HasFailed reply)
  unfolding fetch check_url into_response
  fetch_err e h = (
    ground arith,
    λ reply got. elim (Bool-cases (is_success reply.status)) [
      | inr bad ↦ elim (Bool-cases (leb 200 reply.status)) [
        | inr below ↦ inl (leb→gt _ _ below)
        | inl above ↦ inr (inl (ground arith))
      ]
      | inl good ↦ elim (Option-cases reply.json) [
        | inl unread ↦ inr (inr unread)
        | inr (body, read) ↦ ground arith
      ]
    ],
  )

  country_of-IsCountry : (body : Json N) → IsCountry body (country_of as_f64 zero_score body)
  country_of-IsCountry body = by_value (get "country_name" body) refl
    where
      by_value :
          (found : Option (Json N))
          → get "country_name" body ≡ found
          → IsCountry body (country_of as_f64 zero_score body)
      by_value none e = inr (λ s. ground (arith, e), ground (arith, e))
      by_value (some null) e = inr (λ s. ground (arith, e), ground (arith, e))
      by_value (some (boolean b)) e = inr (λ s. ground (arith, e), ground (arith, e))
      by_value (some (number n)) e = inr (λ s. ground (arith, e), ground (arith, e))
      by_value (some (string t)) e = inl (ground (arith, e))
      by_value (some (array xs)) e = inr (λ s. ground (arith, e), ground (arith, e))
      by_value (some (object ms)) e = inr (λ s. ground (arith, e), ground (arith, e))

  proxy_of-IsProxy : (body : Json N) → IsProxy body (proxy_of as_f64 zero_score body)
  proxy_of-IsProxy body = by_value (bind_option (get "threat" body) (get "is_proxy")) refl
    where
      by_value :
          (found : Option (Json N))
          → bind_option (get "threat" body) (get "is_proxy") ≡ found
          → IsProxy body (proxy_of as_f64 zero_score body)
      by_value none e = inr (λ b. ground (arith, e), ground (arith, e))
      by_value (some null) e = inr (λ b. ground (arith, e), ground (arith, e))
      by_value (some (boolean b)) e = inl (ground (arith, e))
      by_value (some (number n)) e = inr (λ b. ground (arith, e), ground (arith, e))
      by_value (some (string t)) e = inr (λ b. ground (arith, e), ground (arith, e))
      by_value (some (array xs)) e = inr (λ b. ground (arith, e), ground (arith, e))
      by_value (some (object ms)) e = inr (λ b. ground (arith, e), ground (arith, e))

  score_of-IsScore : (body : Json N) → IsScore body (score_of as_f64 zero_score body)
  score_of-IsScore body =
      elim (Option-cases (bind_option (bind_option (get "threat" body) (get "score")) as_f64)) [
        | inl missing ↦ inr (ground arith, ground arith)
        | inr (score, there) ↦ inl (ground arith)
      ]

  answer-IsReport :
      (body : Json N)
      → IsReport body (record {
        ip = ip;
        country = country_of as_f64 zero_score body;
        proxy = proxy_of as_f64 zero_score body;
        risk_score = score_of as_f64 zero_score body;
      })
  answer-IsReport body = record {
    address = refl;
    country = country_of-IsCountry body;
    proxy = proxy_of-IsProxy body;
    risk_score = score_of-IsScore body;
  }

-- Every check ends in one of two ways. Either the upstream service was asked at the configured URL
-- with the address, answered with a status of success, from 200 to 299, and JSON, the answer
-- reports the country, the proxy flag and the score that this JSON has under their keys, with the
-- defaults for what it does not say, and a subscriber of the events that does not lag gets one more
-- frame, which tells the time, the address, the country and the flag. Or the service gave no such
-- reply, the answer is 502 and nothing is sent. An address that is not given is 8.8.8.8.
pub check_handler-Checked :
    {N F : Type 0} (as_f64 : Json N → Option F) (zero_score : F) (serialize : Json N → Option Text)
    (send : Text → Option (Upstream N)) (timestamp : Text) (state : GatewayState) (ip : Option Text)
    (sent : List (GatewayEvent N))
    → Checked as_f64 zero_score serialize send timestamp state
        (unwrap_or ip (codes "8.8.8.8"))
        sent
        (check_handler as_f64 zero_score send timestamp state ip sent).0
        (check_handler as_f64 zero_score send timestamp state ip sent).1
unfolding check_handler
check_handler-Checked as_f64 zero_score serialize send timestamp state ip sent =
    let shown = unwrap_or ip (codes "8.8.8.8") in
    elim (Result-cases (fetch as_f64 zero_score send state shown)) [
      | inl (body, fetched) ↦
          let (reply, got, good, json) =
            fetch_ok as_f64 zero_score serialize send timestamp state shown sent body fetched in
          rw (fetched, answer)
            (reported reply body got good json _ refl
              (answer-IsReport as_f64 zero_score serialize send timestamp state shown sent body)
              (frames-append serialize sent (check_event as_f64 zero_score timestamp shown body)))
      | inr (e, failed) ↦
          let (status, unusable) =
            fetch_err as_f64 zero_score serialize send timestamp state shown sent e failed in
          rw (failed, answer) (unreachable e unusable refl status refl)
    ]
