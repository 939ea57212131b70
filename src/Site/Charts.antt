-- ===== src/Site/Charts.antt =====
-- Whose numbers the charts of the two overviews show.
use org_log.Prelude.{
  ◌≡◌, ◌∙◌, refl, sym, subst, ap, ℕ, String, Bool, true, false, Option, none, some, List,
  if◌then◌else◌, Has,
}
use org_log.Types.{LiveLogMessage, LogListResponse, LogAnalytics, Project}
use org_log.Browser.Storage.{Storage}
use org_log.Queries.{use_analytics, use_analytics_inj}
use org_log.Queries.Observer.{Result, Event, IsDocumented}
use org_log.Queries.Shown.{observe-IsAnswer, plain-observe}
use org_log.Explorer.{Explorer}
use org_log.Analytics.{dashboard_page, analytics_page}
use org_log.Analytics.Pages.{Charts, charts_of, dashboard, analytics_overview}
use org_log.Site.{
  Place, at_dashboard, at_analytics, at_logs, at_live, shown_project, statistics_call, Op, analyzed,
  steps, opened,
}
use org_log.Site.View.{charts_shown, page_view}
use org_log.Site.Watched.{IsWatched, key_of, steps-IsWatched, opened-IsWatched, shown-IsWhole}
use org_log.Site.Origins.{opened-Analyzed}

module _ (to_fixed : ℕ → ℕ → ℕ → ℕ) (format_timestamp_short : String → String)
    (format_minute_bucket : String → String) where
  answered :
      (b : Bool) (v : Option LogAnalytics) (c : Charts)
      → charts_of to_fixed format_timestamp_short format_minute_bucket (if b then none else v)
        ≡ some c
      → (a : LogAnalytics) × (v ≡ some a)
        × (charts_of to_fixed format_timestamp_short format_minute_bucket (some a) ≡ some c)
  answered true v c h = absurd (cc h)
  answered false none c h = absurd (cc h)
  answered false (some a) c h = (a, refl, h)

  -- The charts are those of what `useAnalytics` returns, and the page calls it for its project.
  page_view-charts :
      (place : Place) (shown : Option Project) (r : Result LogAnalytics)
      (l : Result LogListResponse) (e : Explorer) (c : Charts)
      → charts_shown
          (page_view to_fixed format_timestamp_short format_minute_bucket place shown r l e)
        ≡ some c
      → (p : Project) × (a : LogAnalytics) × (shown ≡ some p)
        × (r.value ≡ some a)
        × (charts_of to_fixed format_timestamp_short format_minute_bucket (some a) ≡ some c)
        × (statistics_call place shown ≡ some (use_analytics p.id true))
  unfolding page_view dashboard analytics_overview dashboard_page analytics_page
  page_view-charts at_dashboard none r l e c h = absurd (cc h)
  page_view-charts at_dashboard (some p) r l e c h =
      let (a, v, k) = answered r.is_loading r.value c h in (p, a, refl, v, k, refl)
  page_view-charts at_analytics none r l e c h = absurd (cc h)
  page_view-charts at_analytics (some p) r l e c h =
      let (a, v, k) = answered r.is_loading r.value c h in (p, a, refl, v, k, refl)
  page_view-charts at_logs shown r l e c h = absurd (cc h)
  page_view-charts at_live shown r l e c h = absurd (cc h)

  module _ (ws_url : String) (parse : String → Option LiveLogMessage) (trim : String → String)
      (to_iso : String → String) (search : List (Event LogListResponse) → Result LogListResponse)
      (statistics : List (Event LogAnalytics) → Result LogAnalytics)
      (documented : IsDocumented statistics) where
    -- Whatever is done in the shell and on its pages, in any order from the first page load on, and
    -- however the requests are answered: if the page shows the charts of an overview, they are those
    -- of an answer that came to a request for the statistics of the project that the sidebar shows
    -- as the current one.
    pub charts-IsAnswer :
        (os : List (Op ws_url parse trim to_iso)) (place : Place) (storage : Storage) (c : Charts)
        → let s =
            steps ws_url parse trim to_iso os (opened ws_url parse trim to_iso place storage) in
          charts_shown (
              page_view to_fixed format_timestamp_short format_minute_bucket s.place
                (shown_project s)
                (statistics s.statistics)
                (search s.searches)
                s.explorer)
            ≡ some c
          → (p : Project) × (a : LogAnalytics) × (s.shell.sidebar.projects.current_project ≡ some p)
            × (charts_of to_fixed format_timestamp_short format_minute_bucket (some a) ≡ some c)
            × Has (analyzed p.id (some a)) os
    charts-IsAnswer os place storage c h =
        let s = steps ws_url parse trim to_iso os (opened ws_url parse trim to_iso place storage) in
        let w : IsWatched ws_url parse trim to_iso s =
          steps-IsWatched ws_url parse trim to_iso os _
            (opened-IsWatched ws_url parse trim to_iso place storage) in
        let (p, a, shown, value, same, call) =
          page_view-charts s.place (shown_project s) (statistics s.statistics) (search s.searches)
            s.explorer c h in
        let (k, was, own) = observe-IsAnswer statistics documented s.statistics a value in
        let at : some k ≡ some (use_analytics p.id true).query_key =
          sym (own (plain-observe statistics documented s.statistics w.plain))
          ∙ w.statistics
          ∙ ap key_of call in
        let (id, key, found) = opened-Analyzed ws_url parse trim to_iso os place storage k a was in
        let q : id ≡ p.id = use_analytics_inj id p.id true true (cc (key, at)) in
        (
          p,
          a,
          (shown-IsWhole ws_url s p w.whole shown).2,
          same,
          subst (λ x. Has (analyzed x (some a)) os) q found,
        )
