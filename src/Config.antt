-- ===== src/Config.antt =====
-- frontend/src/lib/constants/config.ts: the addresses, the paths of the endpoints, the defaults and
-- the navigation. The two environment variables are parameters.
pub mod Endpoints
use org_log.Prelude.{ℕ, String, Option, List, [], ◌∷◌, or_else}

pub record ApiConfig : Type 0 where
  pub base_url : String
  pub ws_url : String

-- `process.env.NAME || "…"`
abbrev pub api_config : Option String → Option String → ApiConfig
api_config api_env ws_env = record {
  base_url = or_else api_env "http://localhost:8080";
  ws_url = or_else ws_env "ws://localhost:8080";
}

abbrev pub page_size : ℕ
page_size = 50

-- Milliseconds.
abbrev pub poll_interval : ℕ
poll_interval = 30000

abbrev pub auth_token_key : String
auth_token_key = "orglog_access_token"

pub record NavItem : Type 0 where
  pub label : String
  pub href : String

abbrev pub navigation : List NavItem
navigation =
    record { label = "Dashboard"; href = "/dashboard" }
    ∷ record { label = "Log Explorer"; href = "/dashboard/logs" }
    ∷ record { label = "Live Tail"; href = "/dashboard/live" }
    ∷ record { label = "Analytics"; href = "/dashboard/analytics" }
    ∷ []
