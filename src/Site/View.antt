-- ===== src/Site/View.antt =====
-- What the pages of frontend/src/app/dashboard show for what their hooks return.
use org_log.Prelude.{String, ℕ, Bool, Option, none, some}
use org_log.Types.{LogListResponse, LogAnalytics, Project}
use org_log.Queries.Observer.{Result}
use org_log.Explorer.{Explorer, View, view, summary}
use org_log.Analytics.Pages.{
  Page, no_project_selected, content, Charts, DashboardView, AnalyticsView, dashboard,
  analytics_overview,
}
use org_log.Site.{Place, at_dashboard, at_analytics, at_logs, at_live}

-- The summary above the table, and what stands below it.
pub record ExplorerView : Type 0 where
  pub found : Option (ℕ × Bool)
  pub body : View

-- The live tail shows no answer of a query.
pub data PageView : Type 0 where
  dashboard_view : Page DashboardView → PageView
  analytics_view : Page AnalyticsView → PageView
  explorer_view : Page ExplorerView → PageView
  live_view : PageView

abbrev pub explorer_page : Option Project → Result LogListResponse → Explorer → Page ExplorerView
explorer_page none r e = no_project_selected
explorer_page (some p) r e = content (record {
  found = summary r.value r.is_loading e;
  body = view r.value r.is_loading r.is_error e;
})

-- The charts of an overview.
abbrev pub charts_shown : PageView → Option Charts
charts_shown (dashboard_view no_project_selected) = none
charts_shown (dashboard_view (content v)) = v.charts
charts_shown (analytics_view no_project_selected) = none
charts_shown (analytics_view (content v)) = v.charts
charts_shown (explorer_view v) = none
charts_shown live_view = none

module _ (to_fixed : ℕ → ℕ → ℕ → ℕ) (format_timestamp_short : String → String)
    (format_minute_bucket : String → String) where
  unfoldable pub page_view :
      Place → Option Project → Result LogAnalytics → Result LogListResponse → Explorer → PageView
  page_view at_dashboard shown a l e = dashboard_view (
      dashboard to_fixed format_timestamp_short format_minute_bucket shown a.value a.is_loading
        l.value l.is_loading)
  page_view at_analytics shown a l e = analytics_view (
      analytics_overview to_fixed format_timestamp_short format_minute_bucket shown a.value
        a.is_loading)
  page_view at_logs shown a l e = explorer_view (explorer_page shown l e)
  page_view at_live shown a l e = live_view
