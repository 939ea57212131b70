-- ===== src/Queries.antt =====
-- frontend/src/lib/hooks/use-logs.ts: what each hook hands to `useQuery`, and
-- frontend/src/lib/providers/query-provider.tsx: the options that hold where a hook gives none.
pub mod Observer
pub mod Shown
use org_log.Prelude.{◌≡◌, ℕ, String, Bool, true, false, ◌&&◌, Option, none, some, truthy, arith}
use org_log.Types.{LogQuery}
use org_log.Config.{poll_interval}
use org_log.Api.Endpoints.{Call, search, analytics, health}

-- `queryKey`
pub data QueryKey : Type 0 where
  logs_key : LogQuery → QueryKey
  analytics_key : String → QueryKey
  health_key : QueryKey

-- Times are in milliseconds; `none` where an option is left out. `keeps_previous`: `placeholderData` is
-- `keepPreviousData`.
pub record QueryOptions : Type 0 where
  pub enabled : Option Bool
  pub keeps_previous : Bool
  pub refetch_interval : Option ℕ
  pub refetch_on_window_focus : Option Bool
  pub stale_time : Option ℕ
  pub retry : Option ℕ

-- `query_fn`: the call of the server that `queryFn` makes.
pub record Query : Type 0 where
  pub query_key : QueryKey
  pub query_fn : Call
  pub options : QueryOptions

-- `defaultOptions.queries` of the query client.
abbrev pub default_options : QueryOptions
default_options = record {
  enabled = none;
  keeps_previous = false;
  refetch_interval = none;
  refetch_on_window_focus = some false;
  stale_time = some 10000;
  retry = some 2;
}

unfoldable pub use_logs : LogQuery → Bool → Query
use_logs query enabled = record {
  query_key = logs_key query;
  query_fn = search query;
  options = record {
    enabled = some (enabled && truthy query.project_id);
    keeps_previous = true;
    refetch_interval = some poll_interval;
    refetch_on_window_focus = none;
    stale_time = some 10000;
    retry = none;
  };
}

unfoldable pub use_analytics : String → Bool → Query
use_analytics project_id enabled = record {
  query_key = analytics_key project_id;
  query_fn = analytics project_id;
  options = record {
    enabled = some (enabled && truthy project_id);
    keeps_previous = false;
    refetch_interval = some poll_interval;
    refetch_on_window_focus = none;
    stale_time = some 15000;
    retry = none;
  };
}

unfoldable pub use_health : Query
use_health = record {
  query_key = health_key;
  query_fn = health;
  options = record {
    enabled = none;
    keeps_previous = false;
    refetch_interval = some 60000;
    refetch_on_window_focus = none;
    stale_time = some 30000;
    retry = some 1;
  };
}

-- The entries of the cache are told apart by all that the calls depend on.
pub use_logs_inj :
    (q r : LogQuery) (b c : Bool) → (use_logs q b).query_key ≡ (use_logs r c).query_key → q ≡ r
unfolding use_logs
use_logs_inj q r b c e = cc

pub use_analytics_inj :
    (p q : String) (b c : Bool)
    → (use_analytics p b).query_key ≡ (use_analytics q c).query_key
    → p ≡ q
unfolding use_analytics
use_analytics_inj p q b c e = cc
