-- ===== src/Site/Switch.antt =====
-- A change of the project under a page that shows logs, and the logs of a page in general.
use org_log.Prelude.{
  ◌≡◌, ◌≢◌, ◌∙◌, refl, sym, ap, ℕ, String, Bool, true, false, Option, none, some, List, ◌∷◌,
  if◌then◌else◌,
}
use org_log.Types.{LiveLogMessage, LogListResponse, LogAnalytics, Project}
use org_log.Queries.{use_logs, use_logs_inj, use_analytics, use_analytics_inj}
use org_log.Queries.Observer.{Result, Event, current, Answered, IsDocumented, is_enabled}
use org_log.Queries.Shown.{turn-waiting}
use org_log.Explorer.{Explorer}
use org_log.Analytics.{dashboard_page, analytics_page}
use org_log.Analytics.Pages.{charts_of, dashboard, analytics_overview}
use org_log.Shell.{visits}
use org_log.Shell as Shell
use org_log.Site.{
  Place, at_dashboard, at_analytics, at_logs, at_live, Site, shown_project, statistics_call,
  event_of, search_call, render, in_shell, searched, act, step,
}
use org_log.Site.View.{charts_shown, page_view}
use org_log.Site.Watched.{IsWatched, key_of, step-IsWatched, shown-IsWhole}
use org_log.Site.Rows.{
  shows_logs, logs_query, logs_query-project, rows_shown, rows_at, page_shown, turned-rows,
  settled-rows, search_call-query, render-explorer,
}

statistics-moved :
    (h : List (Event LogAnalytics)) (place : Place) (old p : Project)
    → p.id ≢ old.id
    → current h ≡ key_of (statistics_call place (some old))
    → current h ≢ some (use_analytics p.id true).query_key
statistics-moved h at_dashboard old p n at e =
    n (sym (use_analytics_inj old.id p.id true true (cc (at, e))))
statistics-moved h at_analytics old p n at e =
    n (sym (use_analytics_inj old.id p.id true true (cc (at, e))))
statistics-moved h at_logs old p n at e = cc (at, e)
statistics-moved h at_live old p n at e = cc (at, e)

module _ (to_fixed : ℕ → ℕ → ℕ → ℕ) (format_timestamp_short : String → String)
    (format_minute_bucket : String → String) where
  no_charts :
      (b : Bool)
      → charts_of to_fixed format_timestamp_short format_minute_bucket (if b then none else none)
        ≡ none
  no_charts true = refl
  no_charts false = refl

  module _ (ws_url : String) (parse : String → Option LiveLogMessage) (trim : String → String)
      (to_iso : String → String) (search : List (Event LogListResponse) → Result LogListResponse)
      (statistics : List (Event LogAnalytics) → Result LogAnalytics)
      (search_doc : IsDocumented search) (statistics_doc : IsDocumented statistics) where
    -- The charts of a project whose statistics are not there yet.
    charts-waiting :
        (place : Place) (p : Project) (h : List (Event LogAnalytics)) (l : Result LogListResponse)
        (e : Explorer)
        → current h ≢ some (use_analytics p.id true).query_key
        → ((a : LogAnalytics) → Answered (use_analytics p.id true).query_key a h → ⊥)
        → charts_shown (
            page_view to_fixed format_timestamp_short format_minute_bucket place
              (some p)
              (statistics (event_of (statistics_call place (some p)) ∷ h))
              l
              e)
          ≡ none
    unfolding page_view dashboard dashboard_page analytics_overview analytics_page
    charts-waiting at_dashboard p h l e moved fresh =
        rw
          (turn-waiting statistics statistics_doc (use_analytics p.id true) h
            (unfold use_analytics in refl) moved fresh)
          (no_charts (is_enabled (use_analytics p.id true)))
    charts-waiting at_analytics p h l e moved fresh =
        rw
          (turn-waiting statistics statistics_doc (use_analytics p.id true) h
            (unfold use_analytics in refl) moved fresh)
          (no_charts (is_enabled (use_analytics p.id true)))
    charts-waiting at_logs p h l e moved fresh = refl
    charts-waiting at_live p h l e moved fresh = refl

    -- The page `t` is one of the project `p`, shows the logs of `d`, and with the answer `e` to its query
    -- those of `e`.
    abbrev pub Switches :
        Site → Project → Place → Explorer → LogListResponse → LogListResponse → Type 0
    Switches t p place x d e =
        let rows = rows_at to_fixed format_timestamp_short format_minute_bucket in
        let show =
          page_shown to_fixed format_timestamp_short format_minute_bucket search statistics in
        let q = logs_query to_iso t.place p t.explorer in
        (t.shell.sidebar.projects.current_project ≡ some p)
        × (rows_shown (show t) ≡ rows place d x)
        × (charts_shown (show t) ≡ none)
        × (rows_shown (show (step ws_url parse trim to_iso (searched q (some e)) t))
            ≡ rows place e x)

    -- A page that shows logs, of another project than before.
    turned :
        (w : Site) (old p : Project) (d : LogListResponse)
        → shows_logs w.place ≡ true
        → shown_project w ≡ some p
        → w.shell.app.is_mounted ≡ true
        → p.id ≢ old.id
        → current w.searches ≡ key_of (search_call to_iso w.place (some old) w.explorer)
        → current w.statistics ≡ key_of (statistics_call w.place (some old))
        → (search w.searches).value ≡ some d
        → ((x : LogListResponse)
            → Answered
                (use_logs (logs_query to_iso w.place p w.explorer) true).query_key
                x
                w.searches
            → ⊥)
        → ((a : LogAnalytics) → Answered (use_analytics p.id true).query_key a w.statistics → ⊥)
        → let t = render ws_url parse trim to_iso w in
          (rows_shown
              (page_shown to_fixed format_timestamp_short format_minute_bucket search statistics t)
            ≡ rows_at to_fixed format_timestamp_short format_minute_bucket w.place d w.explorer)
          × (charts_shown (
                page_shown to_fixed format_timestamp_short format_minute_bucket search statistics t)
              ≡ none)
    unfolding render
    turned w old p d b e m n at there v fresh unknown =
        let q = logs_query to_iso w.place p w.explorer in
        let moved : current w.searches ≢ some (use_logs q true).query_key = λ same. n (
          logs_query-project to_iso w.place p old w.explorer (
            use_logs_inj q (logs_query to_iso w.place old w.explorer) true true
              (cc (same, at, ap key_of (search_call-query to_iso w.place old w.explorer b))))) in
        (
          turned-rows to_fixed format_timestamp_short format_minute_bucket ws_url parse trim to_iso
              search statistics search_doc statistics_doc w p d b e m v moved fresh,
          rw e (
              charts-waiting w.place p w.statistics _ _
                (statistics-moved w.statistics w.place old p n there) unknown),
        )

    switched :
        (w : Site) (old p : Project) (d e : LogListResponse)
        → shows_logs w.place ≡ true
        → shown_project w ≡ some p
        → p.id ≢ old.id
        → current w.searches ≡ key_of (search_call to_iso w.place (some old) w.explorer)
        → current w.statistics ≡ key_of (statistics_call w.place (some old))
        → (search w.searches).value ≡ some d
        → ((x : LogListResponse)
            → Answered
                (use_logs (logs_query to_iso w.place p w.explorer) true).query_key
                x
                w.searches
            → ⊥)
        → ((a : LogAnalytics) → Answered (use_analytics p.id true).query_key a w.statistics → ⊥)
        → IsWatched ws_url parse trim to_iso (render ws_url parse trim to_iso w)
        → Switches (render ws_url parse trim to_iso w) p w.place w.explorer d e
    unfolding render
    switched w old p d e b shown n at there v fresh unknown watched =
        let t = render ws_url parse trim to_iso w in
        let (m, app, sidebar) = shown-IsWhole ws_url t p watched.whole shown in
        let (rows, charts) = turned w old p d b shown m n at there v fresh unknown in
        (
          sidebar,
          rows,
          charts,
          settled-rows to_fixed format_timestamp_short format_minute_bucket ws_url parse trim to_iso
                search statistics search_doc statistics_doc t p e b shown m
                (watched.searches
                  ∙ ap (λ x. key_of (search_call to_iso t.place x t.explorer)) shown
                  ∙ ap key_of (search_call-query to_iso t.place p t.explorer b))
              ∙ ap (rows_at to_fixed format_timestamp_short format_minute_bucket w.place e)
                  (render-explorer ws_url parse trim to_iso w m),
        )

    searches-at :
        (s : Site) (old : Project)
        → IsWatched ws_url parse trim to_iso s
        → shown_project s ≡ some old
        → current s.searches ≡ key_of (search_call to_iso s.place (some old) s.explorer)
    searches-at s old w e =
        w.searches ∙ ap (λ x. key_of (search_call to_iso s.place x s.explorer)) e

    statistics-at :
        (s : Site) (old : Project)
        → IsWatched ws_url parse trim to_iso s
        → shown_project s ≡ some old
        → current s.statistics ≡ key_of (statistics_call s.place (some old))
    statistics-at s old w e = w.statistics ∙ ap (λ x. key_of (statistics_call s.place x)) e

    -- While the first overview or the explorer has an answer with logs to show: something in the shell
    -- makes another project the current one, for which the query client has no answer to the
    -- queries of the page yet. The sidebar then shows the new project, and the overview no chart,
    -- but the page shows the logs of that answer as before, neither loading nor failed, until the
    -- query of the new project is answered, whose logs it then shows.
    pub switch_keeps_rows :
        (o : Shell.Op ws_url parse trim) (s : Site) (old p : Project) (d e : LogListResponse)
        → IsWatched ws_url parse trim to_iso s
        → shows_logs s.place ≡ true
        → shown_project s ≡ some old
        → (search s.searches).value ≡ some d
        → o ≢ visits
        → shown_project (step ws_url parse trim to_iso (in_shell o) s) ≡ some p
        → p.id ≢ old.id
        → ((x : LogListResponse)
            → Answered
                (use_logs (logs_query to_iso s.place p s.explorer) true).query_key
                x
                s.searches
            → ⊥)
        → ((a : LogAnalytics) → Answered (use_analytics p.id true).query_key a s.statistics → ⊥)
        → Switches (step ws_url parse trim to_iso (in_shell o) s) p s.place s.explorer d e
    unfolding step act
    switch_keeps_rows visits s old p d e w b was v not_visits shown n fresh unknown =
        absurd (not_visits refl)
    switch_keeps_rows (Shell.in_app o) s old p d e w b was v not_visits shown n fresh unknown =
        switched (record s { shell = Shell.step ws_url parse trim (Shell.in_app o) s.shell }) old p
          d e b (unfold render in shown) n (searches-at s old w was) (statistics-at s old w was) v
          fresh unknown (step-IsWatched ws_url parse trim to_iso (in_shell (Shell.in_app o)) s w)
    switch_keeps_rows (Shell.in_sidebar o) s old p d e w b was v not_visits shown n fresh unknown =
        switched (record s { shell = Shell.step ws_url parse trim (Shell.in_sidebar o) s.shell })
          old p d e b (unfold render in shown) n (searches-at s old w was)
          (statistics-at s old w was) v fresh unknown
          (step-IsWatched ws_url parse trim to_iso (in_shell (Shell.in_sidebar o)) s w)
    switch_keeps_rows (Shell.in_form o) s old p d e w b was v not_visits shown n fresh unknown =
        switched (record s { shell = Shell.step ws_url parse trim (Shell.in_form o) s.shell }) old p
          d e b (unfold render in shown) n (searches-at s old w was) (statistics-at s old w was) v
          fresh unknown (step-IsWatched ws_url parse trim to_iso (in_shell (Shell.in_form o)) s w)
