-- ===== src/Site/Rows.antt =====
-- Whose logs the table of the explorer and that of the first overview show.
use org_log.Prelude.{◌≡◌, ◌≢◌, ◌∙◌, refl, ap, ℕ, String, Bool, true, false, Option, some, List, ◌∷◌}
use org_log.Types.{LiveLogMessage, LogQuery, LogListResponse, LogAnalytics, Project}
use org_log.Queries.{use_logs}
use org_log.Queries.Observer.{
  Result, Event, renders, settles, current, Answered, kept, given, IsDocumented,
}
use org_log.Queries.Shown.{turn-kept, settle-given}
use org_log.Explorer.{Explorer, build_query, view, summary}
use org_log.Analytics.{recent_query, dashboard_page}
use org_log.Analytics.Recent.{RecentLogs, recent_logs_table}
use org_log.Analytics.Pages.{no_project_selected, content, dashboard}
use org_log.Site.{
  Place, at_dashboard, at_analytics, at_logs, at_live, Site, shown_project, event_of, search_call,
  render, searched, act, step,
}
use org_log.Site.View.{
  ExplorerView, PageView, dashboard_view, analytics_view, explorer_view, live_view, page_view,
}

-- The pages that call `useLogs`, and with what.
abbrev pub shows_logs : Place → Bool
shows_logs at_dashboard = true
shows_logs at_logs = true
shows_logs at_analytics = false
shows_logs at_live = false

module _ (to_iso : String → String) where
  abbrev pub logs_query : Place → Project → Explorer → LogQuery
  logs_query at_dashboard p e = recent_query p.id
  logs_query at_logs p e = build_query to_iso p.id e
  logs_query at_analytics p e = build_query to_iso p.id e
  logs_query at_live p e = build_query to_iso p.id e

  pub logs_query-project :
      (place : Place) (p q : Project) (e : Explorer)
      → logs_query place p e ≡ logs_query place q e
      → p.id ≡ q.id
  unfolding build_query
  logs_query-project at_dashboard p q e h = ap (λ x. x.project_id) h
  logs_query-project at_logs p q e h = ap (λ x. x.project_id) h
  logs_query-project at_analytics p q e h = ap (λ x. x.project_id) h
  logs_query-project at_live p q e h = ap (λ x. x.project_id) h

  pub search_call-query :
      (place : Place) (p : Project) (e : Explorer)
      → shows_logs place ≡ true
      → search_call to_iso place (some p) e ≡ some (use_logs (logs_query place p e) true)
  search_call-query at_dashboard p e b = refl
  search_call-query at_logs p e b = refl
  search_call-query at_analytics p e b = absurd (cc b)
  search_call-query at_live p e b = absurd (cc b)

module _ (ws_url : String) (parse : String → Option LiveLogMessage) (trim : String → String)
    (to_iso : String → String) where
  -- A render of a page that shows logs.
  pub render-searches :
      (w : Site) (p : Project)
      → shows_logs w.place ≡ true
      → shown_project w ≡ some p
      → (render ws_url parse trim to_iso w).searches
        ≡ renders (use_logs (logs_query to_iso w.place p w.explorer) true) ∷ w.searches
  unfolding render
  render-searches w p b e =
      ap (λ c. event_of c ∷ w.searches)
        (ap (λ x. search_call to_iso w.place x w.explorer) e
          ∙ search_call-query to_iso w.place p w.explorer b)

  pub render-explorer :
      (w : Site)
      → w.shell.app.is_mounted ≡ true
      → (render ws_url parse trim to_iso w).explorer ≡ w.explorer
  unfolding render
  render-explorer w m = rw m refl

-- The part of a page that shows logs.
pub data Rows : Type 0 where
  explorer_rows : ExplorerView → Rows
  recent_rows : Option RecentLogs → Rows
  no_rows : Rows

abbrev pub rows_shown : PageView → Rows
rows_shown (explorer_view (content v)) = explorer_rows v
rows_shown (explorer_view no_project_selected) = no_rows
rows_shown (dashboard_view (content v)) = recent_rows v.recent
rows_shown (dashboard_view no_project_selected) = no_rows
rows_shown (analytics_view v) = no_rows
rows_shown live_view = no_rows

module _ (to_fixed : ℕ → ℕ → ℕ → ℕ) (format_timestamp_short : String → String)
    (format_minute_bucket : String → String) where
  -- What the page shows of an answer.
  abbrev pub rows_at : Place → LogListResponse → Explorer → Rows
  rows_at at_logs d e =
      explorer_rows
        (record { found = summary (some d) false e; body = view (some d) false false e })
  rows_at at_dashboard d e = recent_rows (some (recent_logs_table format_timestamp_short d.logs))
  rows_at at_analytics d e = no_rows
  rows_at at_live d e = no_rows

  rows_given :
      (place : Place) (p : Project) (a : Result LogAnalytics) (d : LogListResponse) (b : Bool)
      (e : Explorer)
      → rows_shown (
          page_view to_fixed format_timestamp_short format_minute_bucket place
            (some p)
            a
            (record {
              value = some d;
              is_loading = false;
              is_error = false;
              is_placeholder_data = b;
            })
            e)
        ≡ rows_at place d e
  unfolding page_view dashboard dashboard_page
  rows_given at_dashboard p a d b e = refl
  rows_given at_logs p a d b e = refl
  rows_given at_analytics p a d b e = refl
  rows_given at_live p a d b e = refl

  module _ (search : List (Event LogListResponse) → Result LogListResponse)
      (statistics : List (Event LogAnalytics) → Result LogAnalytics) where
    -- What is on the screen.
    abbrev pub page_shown : Site → PageView
    page_shown s =
        page_view to_fixed format_timestamp_short format_minute_bucket s.place (shown_project s)
          (statistics s.statistics) (search s.searches) s.explorer

    page_shown-rows :
        (t : Site) (p : Project) (d : LogListResponse) (b : Bool)
        → shown_project t ≡ some p
        → search t.searches
          ≡ record { value = some d; is_loading = false; is_error = false; is_placeholder_data = b }
        → rows_shown (page_shown t) ≡ rows_at t.place d t.explorer
    page_shown-rows t p d b e r = rw (e, r) (rows_given t.place p _ d b t.explorer)

  module _ (ws_url : String) (parse : String → Option LiveLogMessage) (trim : String → String)
      (to_iso : String → String) (search : List (Event LogListResponse) → Result LogListResponse)
      (statistics : List (Event LogAnalytics) → Result LogAnalytics)
      (search_doc : IsDocumented search) (statistics_doc : IsDocumented statistics) where
    -- A page turns to a query that has no answer yet.
    pub turned-rows :
        (w : Site) (p : Project) (d : LogListResponse)
        → shows_logs w.place ≡ true
        → shown_project w ≡ some p
        → w.shell.app.is_mounted ≡ true
        → (search w.searches).value ≡ some d
        → let key = (use_logs (logs_query to_iso w.place p w.explorer) true).query_key in
          current w.searches ≢ some key
          → ((x : LogListResponse) → Answered key x w.searches → ⊥)
          → rows_shown (page_shown search statistics (render ws_url parse trim to_iso w))
            ≡ rows_at w.place d w.explorer
    unfolding render
    turned-rows w p d b e m v moved fresh =
        let q = use_logs (logs_query to_iso w.place p w.explorer) true in
        let r : search (render ws_url parse trim to_iso w).searches ≡ kept d =
          ap search (render-searches ws_url parse trim to_iso w p b e)
          ∙ turn-kept search search_doc q w.searches d (unfold use_logs in refl) v moved fresh in
        page_shown-rows search statistics (render ws_url parse trim to_iso w) p d true
          (unfold render in e) r
        ∙ ap (λ x. rows_at w.place d x) (render-explorer ws_url parse trim to_iso w m)

    -- The answer to the query that a page watches.
    pub settled-rows :
        (t : Site) (p : Project) (d : LogListResponse)
        → shows_logs t.place ≡ true
        → shown_project t ≡ some p
        → t.shell.app.is_mounted ≡ true
        → let q = logs_query to_iso t.place p t.explorer in
          current t.searches ≡ some (use_logs q true).query_key
          → rows_shown
              (page_shown search statistics (step ws_url parse trim to_iso (searched q (some d)) t))
            ≡ rows_at t.place d t.explorer
    unfolding step act
    settled-rows t p d b e m at =
        let q = logs_query to_iso t.place p t.explorer in
        let w : Site = record t { searches = settles (use_logs q true) (some d) ∷ t.searches } in
        let r : search (render ws_url parse trim to_iso w).searches ≡ given d =
          ap search (render-searches ws_url parse trim to_iso w p b e)
          ∙ settle-given search search_doc (use_logs q true) t.searches d at in
        page_shown-rows search statistics (render ws_url parse trim to_iso w) p d false
          (unfold render in e) r
        ∙ ap (λ x. rows_at t.place d x) (render-explorer ws_url parse trim to_iso w m)
