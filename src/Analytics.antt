-- ===== src/Analytics.antt =====
-- frontend/src/app/dashboard/analytics/page.tsx and frontend/src/app/dashboard/page.tsx: the numbers
-- of the two overviews and what they show while a request is under way. Counts by level or service
-- are the entries of a JSON object. `toFixed` is a parameter: `to_fixed scale part whole` is what it
-- prints of `part / whole`, counted in parts of `scale`. IsNearest is what its documentation says
-- of quotients that doubles tell apart: it is a nearest one, whichever it picks of two.
pub mod Numbers
pub mod Services
pub mod Recent
pub mod Trend
pub mod Shares
pub mod Totals
pub mod StatCard
pub mod Pages
pub mod Rates
use org_log.Prelude.{
  ℕ, ◌+◌, ◌*◌, ◌≤◌, ◌<◌, String, Bool, true, false, not, ◌&&◌, Option, none, some, List, [], ◌∷◌,
  length, str_eq, ltb, map, if◌then◌else◌,
}
use org_log.Types.{LogAnalytics, LogListResponse, LogQuery, LogEntry, ErrorPerMinute}

-- `counts?.LEVEL || 0`
unfoldable pub count_at : String → List (String × ℕ) → ℕ
count_at key [] = 0
count_at key ((k, n) ∷ counts) = let rest = count_at key counts in if str_eq k key then n else rest

-- `analytics?.logs_by_level`, as no entries while there is no answer.
abbrev pub by_level : Option LogAnalytics → List (String × ℕ)
by_level none = []
by_level (some a) = a.logs_by_level

abbrev pub by_service : Option LogAnalytics → List (String × ℕ)
by_service none = []
by_service (some a) = a.logs_by_service

abbrev pub total_logs : Option LogAnalytics → ℕ
total_logs none = 0
total_logs (some a) = a.total_logs

unfoldable pub total_errors : Option LogAnalytics → ℕ
total_errors a = count_at "ERROR" (by_level a) + count_at "CRITICAL" (by_level a)

unfoldable pub total_warnings : Option LogAnalytics → ℕ
total_warnings a = count_at "WARNING" (by_level a)

pub record IsNearest (to_fixed : ℕ → ℕ → ℕ → ℕ) : Type 0 where
  pub below :
      (scale part whole : ℕ)
      → 0 < whole
      → to_fixed scale part whole * (2 * whole) ≤ 2 * scale * part + whole
  pub above :
      (scale part whole : ℕ)
      → 0 < whole
      → 2 * scale * part ≤ to_fixed scale part whole * (2 * whole) + whole

module _ (to_fixed : ℕ → ℕ → ℕ → ℕ) where
  -- In hundredths of a percent.
  unfoldable pub error_rate : Option LogAnalytics → ℕ
  unfolding total_errors
  error_rate a = if ltb 0 (total_logs a) then to_fixed 10000 (total_errors a) (total_logs a) else 0

pub data CardColor : Type 0 where
  blue emerald amber red violet : CardColor

-- What a page hands to a card, but for its icon.
pub record Card : Type 0 where
  pub title : String
  pub value : ℕ
  pub color : CardColor

abbrev card : String → ℕ → CardColor → Card
card title value color = record { title = title; value = value; color = color }

-- `placeholders`: so many grey boxes stand where the values will be.
pub data Cards : Type 0 where
  placeholders : ℕ → Cards
  cards : List Card → Cards

-- The banner has the rate, the errors and the total; the charts have their data.
pub record Overview : Type 0 where
  pub stats : Cards
  pub banner : Option (ℕ × ℕ × ℕ)
  pub charts : Option LogAnalytics

module _ (to_fixed : ℕ → ℕ → ℕ → ℕ) where
  unfoldable pub analytics_page : Option LogAnalytics → Bool → Overview
  unfolding total_errors total_warnings error_rate
  analytics_page a is_loading = record {
    stats =
        if is_loading
        then placeholders 5
        else cards (
            card "Total Logs" (total_logs a) blue
            ∷ card "Active Services" (length (by_service a)) violet
            ∷ card "Warnings" (total_warnings a) amber
            ∷ card "Errors" (total_errors a) red
            ∷ card "Log Levels" (length (by_level a)) emerald
            ∷ []);
    banner = elim a [
      | none ↦ none
      | some b ↦
          if is_loading
          then none
          else some (error_rate to_fixed (some b), total_errors (some b), b.total_logs)
    ];
    charts = if is_loading then none else a;
  }

-- What `DashboardContent` asks `useLogs` for.
abbrev pub recent_query : String → LogQuery
recent_query id = record {
  project_id = id;
  service = none;
  level = none;
  start_time = none;
  end_time = none;
  search_text = none;
  limit = some 10;
  offset = none;
}

-- `DashboardContent`: `recent` are the rows of the table of recent logs, `none` while it loads.
pub record Dashboard : Type 0 where
  pub stats : Cards
  pub charts : Option LogAnalytics
  pub recent : Option (List LogEntry)

abbrev pub recent_logs : Option LogListResponse → List LogEntry
recent_logs none = []
recent_logs (some d) = d.logs

unfoldable pub dashboard_page :
    Option LogAnalytics → Bool → Option LogListResponse → Bool → Dashboard
unfolding total_errors total_warnings
dashboard_page a analytics_loading logs logs_loading = record {
  stats =
      if analytics_loading
      then placeholders 4
      else cards (
          card "Total Logs" (total_logs a) blue
          ∷ card "Services" (length (by_service a)) violet
          ∷ card "Warnings" (total_warnings a) amber
          ∷ card "Errors + Critical" (total_errors a) red
          ∷ []);
  charts = if analytics_loading then none else a;
  recent = if logs_loading then none else some (recent_logs logs);
}
