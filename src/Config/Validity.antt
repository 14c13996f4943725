-- ===== src/Config/Validity.antt =====
-- Which configurations are accepted: crates/config/src/lib.rs.
use rust_web_fullstack.Prelude.{
  ◌≤◌, ◌<◌, true, false, Text, trim, is_empty, Option, none, some, ok, ◌≡◌, ◌≢◌, ◌↔◌, arith, refl,
  List, String, Result-cases, ◌>>◌, map_err, bind-ok, inl, inr, [],
}
use rust_web_fullstack.Config.{Value, Config, max_i64_as_u64, validate}
use rust_web_fullstack.Config.Load.{
  Sources, Environment, load_from, defaults, path_missing, path_or_default,
}

-- The documented constraints on values and between them.
pub record IsValid (c : Config) : Type 0 where
  pub upstream : trim c.gateway.proxy_upstream_url ≢ []
  pub gateway_buffer : 0 < c.gateway.sse_broadcast_buffer
  pub refresh_ttl : 0 < c.gateway.refresh_token_ttl_secs
  pub refresh_ttl_fits : c.gateway.refresh_token_ttl_secs ≤ max_i64_as_u64
  pub access_ttl : 0 < c.gateway.access_token_ttl_secs
  pub access_ttl_fits : c.gateway.access_token_ttl_secs ≤ max_i64_as_u64
  pub database : trim c.live_search.database_url ≢ []
  pub pool_max : 0 < c.live_search.pool_max_connections
  pub pool_order : c.live_search.pool_min_connections ≤ c.live_search.pool_max_connections
  pub acquire : 0 < c.live_search.pool_acquire_timeout_secs
  pub idle : 0 < c.live_search.pool_idle_timeout_secs
  pub lifetime : 0 < c.live_search.pool_max_lifetime_secs
  pub search_buffer : 0 < c.live_search.sse_broadcast_buffer

is_empty_iff : (s : Text) → (is_empty s ≡ false) ↔ (s ≢ [])
is_empty_iff s = ground arith

-- `validate` accepts a configuration exactly when it meets every documented constraint.
pub validate_iff : (c : Config) → (validate c ≡ ok tt) ↔ IsValid c
unfolding validate
validate_iff c =
    let url = is_empty_iff (trim c.gateway.proxy_upstream_url) in
    let db = is_empty_iff (trim c.live_search.database_url) in
    (λ e. ground arith, λ v. ground arith)

abbrev pub IsThere : Sources → Option Text → Type 0
IsThere sources none = Unit {0}
IsThere sources (some path) = sources.path_exists path ≡ true

path_missing_ok :
    (sources : Sources) (path : Option Text)
    → path_missing sources path ≡ ok tt
    → IsThere sources path
path_missing_ok sources none e = tt
path_missing_ok sources (some path) e = ground arith

validated : (cfg c : Config) → (validate cfg >> ok cfg) ≡ ok c → validate c ≡ ok tt
validated cfg c e = elim (Result-cases (validate cfg)) [
  | inl (done, passed) ↦ ground arith
  | inr (x, refused) ↦ ground arith
]

IsThere-path_missing :
    (sources : Sources) (path : Option Text)
    → IsThere sources path
    → path_missing sources path ≡ ok tt
IsThere-path_missing sources none there = refl
IsThere-path_missing sources (some path) there = ground arith

-- The file, the variables and the defaults give this configuration.
abbrev pub IsBuilt : Sources → Option Text → Environment → Config → Type 0
IsBuilt sources path environment c =
    (values : List (String × Value)) × (defaults ≡ ok values)
    × (sources.build values (path_or_default path) environment ≡ ok c)

load_from_sound :
    (sources : Sources) (path : Option Text) (environment : Environment) (c : Config)
    → load_from sources path environment ≡ ok c
    → IsThere sources path × IsBuilt sources path environment c × IsValid c
unfolding load_from
load_from_sound sources path environment c e =
    let (_, loaded, there) = bind-ok _ (path_missing sources path) e in
    let (values, built, given) = bind-ok _ defaults loaded in
    let (cfg, checked, read) =
      bind-ok _ (map_err _ (sources.build values (path_or_default path) environment)) built in
    (
      path_missing_ok sources path there,
      (values, given, ground arith),
      (validate_iff c).0 (validated cfg c checked),
    )

load_from_complete :
    (sources : Sources) (path : Option Text) (environment : Environment) (c : Config)
    → IsThere sources path
    → IsBuilt sources path environment c
    → IsValid c
    → load_from sources path environment ≡ ok c
unfolding load_from
load_from_complete sources path environment c there (values, given, read) v =
    ground (arith, IsThere-path_missing sources path there, (validate_iff c).1 v)

-- `load_from` answers with a configuration exactly when the explicit path exists, if one is given,
-- the sources build that configuration over the defaults, and it meets every documented constraint.
pub load_from_iff :
    (sources : Sources) (path : Option Text) (environment : Environment) (c : Config)
    → (load_from sources path environment ≡ ok c)
      ↔ (IsThere sources path × IsBuilt sources path environment c × IsValid c)
load_from_iff sources path environment c = (
  load_from_sound sources path environment c,
  λ (there, built, v). load_from_complete sources path environment c there built v,
)
