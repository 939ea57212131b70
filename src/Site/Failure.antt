-- ===== src/Site/Failure.antt =====
-- What the pages that show logs make of a search that has failed.
use org_log.Prelude.{
  ◌≡◌, ◌∙◌, refl, ap, subst, ℕ, String, true, false, Option, none, some, List, ◌∷◌,
}
use org_log.Types.{LiveLogMessage, LogListResponse, LogAnalytics, Project}
use org_log.Queries.{QueryKey, use_logs}
use org_log.Queries.Observer.{Result, Event, settles, current, Latest, own, failing, IsDocumented}
use org_log.Queries.Shown.{settle-failing, own-some, observe-Latest}
use org_log.Explorer.{Explorer, failed_to_load, view, summary}
use org_log.Analytics.{recent_logs, dashboard_page}
use org_log.Analytics.Recent.{recent_logs_table}
use org_log.Analytics.Pages.{dashboard}
use org_log.Site.{
  Place, at_dashboard, at_analytics, at_logs, at_live, Site, shown_project, search_call, render,
  searched, act, step,
}
use org_log.Site.View.{page_view}
use org_log.Site.Watched.{IsWatched, key_of, step-IsWatched, shown-IsWhole}
use org_log.Site.Rows.{
  Rows, explorer_rows, recent_rows, no_rows, shows_logs, logs_query, search_call-query, rows_shown,
  rows_at, page_shown, render-searches, render-explorer, settled-rows,
}

-- If there are data, they are the last answer to the query of that key.
abbrev pub IsLast : QueryKey → Option LogListResponse → List (Event LogListResponse) → Type 0
IsLast k none h = Unit {0}
IsLast k (some d) h = Latest k d h

own-IsLast :
    (search : List (Event LogListResponse) → Result LogListResponse) (doc : IsDocumented search)
    (k : QueryKey) (h : List (Event LogListResponse)) (o : Option LogListResponse)
    → current h ≡ some k
    → own (search h) ≡ o
    → IsLast k o h
own-IsLast search doc k h none at e = tt
own-IsLast search doc k h (some d) at e =
    let (value, real) = own-some (search h) d e in
    let (j, now, last) = observe-Latest search doc h d value real in
    subst (λ x. Latest x d h) (cc (now, at)) last

module _ (to_fixed : ℕ → ℕ → ℕ → ℕ) (format_timestamp_short : String → String)
    (format_minute_bucket : String → String) where
  -- What a page shows of a failure, with the data that are left from before.
  abbrev pub failed_at : Place → Option LogListResponse → Explorer → Rows
  failed_at at_logs o e =
      explorer_rows (record { found = summary o false e; body = failed_to_load })
  failed_at at_dashboard o e =
      recent_rows (some (recent_logs_table format_timestamp_short (recent_logs o)))
  failed_at at_analytics o e = no_rows
  failed_at at_live o e = no_rows

  rows_failed :
      (place : Place) (p : Project) (a : Result LogAnalytics) (r : Result LogListResponse)
      (e : Explorer)
      → r.is_loading ≡ false
      → r.is_error ≡ true
      → rows_shown
          (page_view to_fixed format_timestamp_short format_minute_bucket place (some p) a r e)
        ≡ failed_at place r.value e
  unfolding page_view dashboard dashboard_page view
  rows_failed at_dashboard p a r e idle wrong = rw idle refl
  rows_failed at_logs p a r e idle wrong = rw (wrong, idle) refl
  rows_failed at_analytics p a r e idle wrong = refl
  rows_failed at_live p a r e idle wrong = refl

  page_shown_failed :
      (search : List (Event LogListResponse) → Result LogListResponse)
      (statistics : List (Event LogAnalytics) → Result LogAnalytics) (t : Site) (p : Project)
      (r : Result LogListResponse)
      → shown_project t ≡ some p
      → search t.searches ≡ r
      → r.is_loading ≡ false
      → r.is_error ≡ true
      → rows_shown
          (page_shown to_fixed format_timestamp_short format_minute_bucket search statistics t)
        ≡ failed_at t.place r.value t.explorer
  page_shown_failed search statistics t p r shown same idle wrong =
      rw (shown, same) (rows_failed t.place p (statistics t.statistics) r t.explorer idle wrong)

  module _ (ws_url : String) (parse : String → Option LiveLogMessage) (trim : String → String)
      (to_iso : String → String) (search : List (Event LogListResponse) → Result LogListResponse)
      (statistics : List (Event LogAnalytics) → Result LogAnalytics)
      (search_doc : IsDocumented search) (statistics_doc : IsDocumented statistics) where
    watched_query :
        (s : Site) (p : Project)
        → IsWatched ws_url parse trim to_iso s
        → shows_logs s.place ≡ true
        → shown_project s ≡ some p
        → current s.searches
          ≡ some (use_logs (logs_query to_iso s.place p s.explorer) true).query_key
    watched_query s p w b shown =
        w.searches
        ∙ ap (λ x. key_of (search_call to_iso s.place x s.explorer)) shown
        ∙ ap key_of (search_call-query to_iso s.place p s.explorer b)

    -- While the first overview or the explorer shows a project, its search fails for good. The explorer
    -- then shows the notice of the failure in place of the table, and above it the number of the
    -- data that the page had of this search, if it had any that did not only stand in; the overview
    -- shows the rows of those data or, without any, that there are no recent logs, and in neither
    -- case that something has failed. Those data are the last answer that came to this search. An
    -- answer that comes next is shown.
    pub failed_search :
        (s : Site) (p : Project) (e : LogListResponse)
        → IsWatched ws_url parse trim to_iso s
        → shows_logs s.place ≡ true
        → shown_project s ≡ some p
        → let q = logs_query to_iso s.place p s.explorer in
          let t = step ws_url parse trim to_iso (searched q none) s in
          let show =
            page_shown to_fixed format_timestamp_short format_minute_bucket search statistics in
          (rows_shown (show t) ≡ failed_at s.place (own (search s.searches)) s.explorer)
          × IsLast (use_logs q true).query_key (own (search s.searches)) s.searches
          × (rows_shown (show (step ws_url parse trim to_iso (searched q (some e)) t))
              ≡ rows_at to_fixed format_timestamp_short format_minute_bucket s.place e s.explorer)
    unfolding step act render
    failed_search s p e w b shown =
        let (m, app, sidebar) = shown-IsWhole ws_url s p w.whole shown in
        let at = watched_query s p w b shown in
        let q = logs_query to_iso s.place p s.explorer in
        let t = step ws_url parse trim to_iso (searched q none) s in
        let v : Site = record s { searches = settles (use_logs q true) none ∷ s.searches } in
        let same : search t.searches ≡ failing (own (search s.searches)) =
          ap search (render-searches ws_url parse trim to_iso v p b shown)
          ∙ settle-failing search search_doc (use_logs q true) s.searches at in
        let again : IsWatched ws_url parse trim to_iso t =
          step-IsWatched ws_url parse trim to_iso (searched q none) s w in
        let stays = render-explorer ws_url parse trim to_iso v m in
        (
          page_shown_failed search statistics t p (failing (own (search s.searches))) shown same
                refl refl
              ∙ ap (λ x. failed_at s.place (own (search s.searches)) x) stays,
          own-IsLast search search_doc (use_logs q true).query_key s.searches
              (own (search s.searches)) at refl,
          subst
              (λ x.
                rows_shown (
                  page_shown to_fixed format_timestamp_short format_minute_bucket search statistics
                    (step ws_url parse trim to_iso
                      (searched (logs_query to_iso s.place p x) (some e)) t))
                ≡ rows_at to_fixed format_timestamp_short format_minute_bucket s.place e x)
              stays
              (settled-rows to_fixed format_timestamp_short format_minute_bucket ws_url parse trim
                to_iso search statistics search_doc statistics_doc t p e b shown m
                (watched_query t p again b shown)),
        )
