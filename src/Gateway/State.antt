-- ===== src/Gateway/State.antt =====
-- The state that the gateway's handlers share: `GatewayState` of gateway/src/gateway.rs, less the
-- event channel and the HTTP client, and `ServiceModule` of gateway/src/module.rs as a record.
use rust_web_fullstack.Prelude.{Bool, String, Text, List}
use rust_web_fullstack.Prelude.Int.{ℤ}
use rust_web_fullstack.Settings.{Settings}

-- What a health check reports within its time limit, or that the limit passed.
pub data Probe : Type 0 where
  passed unavailable timed_out : Probe

pub record ServiceModule : Type 0 where
  pub name : String
  pub path : String
  pub description : String
  pub enabled : Bool
  pub health_check : Probe

pub record ServiceInfo : Type 0 where
  pub name : String
  pub path : String
  pub description : String
  pub enabled : Bool

pub record GatewayState : Type 0 where
  pub services : List ServiceInfo
  pub modules : List ServiceModule
  pub settings : Settings
  pub proxy_upstream_url : Text
  -- Whether a pool is configured.
  pub db_pool : Bool
  pub refresh_token_ttl_secs : ℤ
  pub access_token_ttl_secs : ℤ
