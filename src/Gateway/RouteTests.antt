-- ===== src/Gateway/RouteTests.antt =====
-- Requests to the gateway's own routes and to the proxy service, and an origin list.
use rust_web_fullstack.Prelude.{
  ℕ, true, Text, codes, text_eq, Option, none, some, [], ◌∷◌, any, ok, ◌≡◌, refl, arith,
}
use rust_web_fullstack.Prelude.Int.{pos}
use rust_web_fullstack.Gateway.Cors.{CorsLibrary, cors_layer}
use rust_web_fullstack.Gateway.Cors.Origins.{join, is_plain, cors_layer-join}
use rust_web_fullstack.Gateway.SessionRoutes.{whoami}
use rust_web_fullstack.Gateway.SessionRoutes.Lifecycle.{IsStore, login-logout_whoami}
use rust_web_fullstack.Gateway.Events.{string, object, members, service_started}
use rust_web_fullstack.Gateway.Proxy.{Upstream, check_handler}
use rust_web_fullstack.Gateway.Proxy.Check.{Checked, check_handler-Checked}
use rust_web_fullstack.Auth.Tests.{lib, table}
use rust_web_fullstack.Auth.MiddlewareTests.{logout_request, revoked_table, logs_out}
use rust_web_fullstack.Auth.HandlerTests.{
  jwts, sessions, parse_uuid, state, request, login_outcomes, logged_in_table, response, logs_in,
}

abbrev cors_library : CorsLibrary
cors_library = record { parse = λ s. some s; list_panics = any (text_eq (codes "*")) }

cors_layer-join_example : cors_layer cors_library (join (codes "a.b" ∷ codes "*" ∷ [])) ≡ none
unfolding is_plain
cors_layer-join_example =
    cors_layer-join cors_library (codes "a.b") (codes "*" ∷ []) (λ os. refl)
      (((refl, (refl, (refl, tt))), refl), ((((refl, tt), refl), tt))) (refl, (refl, tt))
      (λ e. ground (arith, e))

sessions-IsStore : IsStore sessions
sessions-IsStore = record {
  inserted = λ user s s' e. ground arith;
  saved = λ user s s' e read. ground arith;
  flushed = λ s s' e. ground arith;
}

login-logout_whoami_example :
    ((whoami sessions (some (codes "admin"))).1 ≡ ok (some (codes "admin")))
    × ((whoami sessions none).1 ≡ ok none)
login-logout_whoami_example =
    login-logout_whoami sessions lib jwts parse_uuid login_outcomes state request table
      logged_in_table table revoked_table none (some (codes "admin")) none response 8 logout_request
      true (pos 20) (record { status = 200; error = none }) sessions-IsStore logs_in refl logs_out
      refl

-- An upstream service that knows one country.
abbrev upstream : Text → Option (Upstream ℕ)
upstream url = some (record {
  status = 200;
  json = some (object (members (("country_name", string (codes "France")) ∷ [])));
})

check_handler-Checked_example :
    Checked {F = ℕ}
      (λ v. none)
      0
      (λ v. some [])
      upstream
      (codes "now")
      state
      (codes "1.2.3.4")
      (service_started "proxy" ∷ [])
      (check_handler {F = ℕ}
        (λ v. none)
        0
        upstream
        (codes "now")
        state
        (some (codes "1.2.3.4"))
        (service_started "proxy" ∷ [])).0
      (check_handler {F = ℕ}
        (λ v. none)
        0
        upstream
        (codes "now")
        state
        (some (codes "1.2.3.4"))
        (service_started "proxy" ∷ [])).1
check_handler-Checked_example =
    check_handler-Checked {F = ℕ} (λ v. none) 0 (λ v. some []) upstream (codes "now") state
      (some (codes "1.2.3.4")) (service_started "proxy" ∷ [])
