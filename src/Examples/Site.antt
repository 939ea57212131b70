-- ===== src/Examples/Site.antt =====
-- A visit of the pages with their queries.
use org_log.Prelude.{
  ◌≡◌, ◌≢◌, ◌⊎◌, inl, inr, eq_iff, arith, refl, sym, ap, ℕ, String, true, none, some, List, [], ◌∷◌,
  ◌++◌, Has, take, false, ◌≤◌,
}
use org_log.Types.{LogEntry, LogQuery, LogListResponse, LogAnalytics, Project}
use org_log.Browser.Storage.{Storage, get_item}
use org_log.Config.{auth_token_key}
use org_log.Auth.{ok}
use org_log.App.{checks, checked, asks, answers}
use org_log.App as App
use org_log.Shell as Shell
use org_log.Auth.{start_check, settle_check}
use org_log.Auth.Guard.{screen}
use org_log.Projects.{settle_fetch, start_fetch, switch_project}
use org_log.Analytics.{dashboard_page}
use org_log.Analytics.Shares.{distribution}
use org_log.Analytics.Trend.{error_trend}
use org_log.Analytics.Services.{chart}
use org_log.Sidebar.{picks_project, pick_project}
use org_log.Sidebar as Sidebar
use org_log.Queries.{use_logs, use_analytics, use_logs_inj}
use org_log.Queries.Observer.{current, given, Answered, own}
use org_log.Queries.Shown.{settle-given}
use org_log.Analytics.Pages.{Charts, charts_of, dashboard}
use org_log.Shell.{in_app, in_sidebar}
use org_log.Site.{
  Site, Op, at_dashboard, at_logs, in_shell, searched, analyzed, turns, step, steps, opened,
  shown_project,
}
use org_log.Site.View.{charts_shown, page_view}
use org_log.Site.Charts.{charts-IsAnswer}
use org_log.Site.Found.{found-IsAnswer}
use org_log.Site.Rows.{shows_logs, logs_query, page_shown, rows_shown, rows_at}
use org_log.Site.Failure.{failed_at, IsLast, failed_search}
use org_log.Site.Watched.{IsWatched, step-IsWatched, steps-IsWatched, opened-IsWatched}
use org_log.Site.Offset.{drop, IsPaged, Overshoots, switch_keeps_offset}
use org_log.Site.Switch.{Switches, switch_keeps_rows}
use org_log.Explorer.{build_query, page_change, has_active_filters}
use org_log.Explorer as Explorer
use org_log.Examples.{ws_url, parse, ada, project, entry}
use org_log.Examples.QueryClient.{observe, observe-IsDocumented}

abbrev as_given : String → String
as_given t = t

abbrev to_fixed : ℕ → ℕ → ℕ → ℕ
to_fixed scale part whole = 0

abbrev signed_in : Storage
signed_in = (auth_token_key, "tok") ∷ []

abbrev numbers : LogAnalytics
numbers = record {
  project_id = "p1";
  total_logs = 0;
  logs_by_level = [];
  logs_by_service = [];
  errors_per_minute = [];
}

abbrev sign_in : List (Op ws_url parse as_given as_given)
sign_in =
    in_shell (in_app checks)
    ∷ in_shell (in_app (checked (ok ada)))
    ∷ in_shell (in_app asks)
    ∷ in_shell (in_app (answers (ok (project "p1" ∷ project "p2" ∷ []))))
    ∷ []

abbrev arrival : List (Op ws_url parse as_given as_given)
arrival = sign_in ++ analyzed "p1" (some numbers) ∷ []

abbrev overview : Site
overview =
    steps ws_url parse as_given as_given arrival
      (opened ws_url parse as_given as_given at_dashboard signed_in)

overview-numbers : observe overview.statistics ≡ given numbers
unfolding steps step Shell.step App.step App.check start_check get_item App.guard screen
    settle_check App.with_projects settle_fetch start_fetch use_analytics
overview-numbers =
    settle-given observe observe-IsDocumented (use_analytics "p1" true) _ numbers refl

overview-project : shown_project overview ≡ some (project "p1")
unfolding steps step Shell.step App.step App.check start_check get_item App.guard screen
    settle_check App.with_projects settle_fetch start_fetch
overview-project = refl

abbrev drawn : Charts
drawn = record {
  levels = distribution to_fixed numbers.logs_by_level;
  trend = error_trend as_given numbers.errors_per_minute;
  services = chart numbers.logs_by_service;
}

overview-place : overview.place ≡ at_dashboard
unfolding steps step Shell.step App.step App.check start_check get_item App.guard screen
    settle_check App.with_projects settle_fetch start_fetch
overview-place = refl

drawn-shown :
    charts_shown (
      page_view to_fixed as_given as_given overview.place
        (shown_project overview)
        (observe overview.statistics)
        (observe overview.searches)
        overview.explorer)
    ≡ some drawn
unfolding page_view dashboard dashboard_page
drawn-shown = rw (overview-numbers, overview-project, overview-place) refl

charts-IsAnswer_example :
    (p : Project) × (a : LogAnalytics) × (overview.shell.sidebar.projects.current_project ≡ some p)
    × (charts_of to_fixed as_given as_given (some a) ≡ some drawn)
    × Has (analyzed p.id (some a)) arrival
charts-IsAnswer_example =
    charts-IsAnswer to_fixed as_given as_given ws_url parse as_given as_given observe observe
      observe-IsDocumented arrival at_dashboard signed_in drawn drawn-shown

abbrev page_of : String → LogListResponse
page_of id = record { logs = entry id ∷ []; total = 1; limit = 50; offset = 0 }

-- The first search of the explorer, for a project.
abbrev first_search : String → LogQuery
first_search id = build_query as_given id Explorer.initial

abbrev reading : List (Op ws_url parse as_given as_given)
reading = sign_in ++ searched (first_search "p1") (some (page_of "l1")) ∷ []

abbrev explorer : Site
explorer =
    steps ws_url parse as_given as_given reading
      (opened ws_url parse as_given as_given at_logs signed_in)

explorer-page : observe explorer.searches ≡ given (page_of "l1")
unfolding steps step Shell.step App.step App.check start_check get_item App.guard screen
    settle_check App.with_projects settle_fetch start_fetch use_logs
explorer-page =
    settle-given observe observe-IsDocumented (use_logs (first_search "p1") true) _ (page_of "l1")
      refl

explorer-project : shown_project explorer ≡ some (project "p1")
unfolding steps step Shell.step App.step App.check start_check get_item App.guard screen
    settle_check App.with_projects settle_fetch start_fetch
explorer-project = refl

explorer-place : explorer.place ≡ at_logs
unfolding steps step Shell.step App.step App.check start_check get_item App.guard screen
    settle_check App.with_projects settle_fetch start_fetch
explorer-place = refl

found-IsAnswer_example :
    (q : LogQuery) × Has (searched q (some (page_of "l1"))) reading
    × (((observe explorer.searches).is_placeholder_data ≡ true)
        ⊎ (q ≡ build_query as_given "p1" explorer.explorer))
found-IsAnswer_example =
    found-IsAnswer ws_url parse as_given as_given observe observe-IsDocumented reading at_logs
      signed_in (project "p1") (page_of "l1") explorer-place explorer-project
      (ap (λ r. r.value) explorer-page)

explorer-IsWatched : IsWatched ws_url parse as_given as_given explorer
explorer-IsWatched =
    steps-IsWatched ws_url parse as_given as_given reading _
      (opened-IsWatched ws_url parse as_given as_given at_logs signed_in)

-- A click on the second project.
abbrev click : Shell.Op ws_url parse as_given
click = in_sidebar (picks_project "p2")

click-project :
    shown_project (step ws_url parse as_given as_given (in_shell click) explorer)
    ≡ some (project "p2")
unfolding steps step Shell.step App.step App.check start_check get_item App.guard screen
    settle_check App.with_projects settle_fetch start_fetch Shell.hand_over Sidebar.apply
    pick_project switch_project
click-project = refl

other_project : (project "p2").id ≢ (project "p1").id
other_project e = absurd (ground (arith, (eq_iff "p2" "p1").1 e))

not_found :
    (x : LogListResponse)
    → Answered
        (use_logs
          (logs_query as_given explorer.place (project "p2") explorer.explorer)
          true).query_key
        x
        explorer.searches
    → ⊥
unfolding steps step Shell.step App.step App.check start_check get_item App.guard screen
    settle_check App.with_projects settle_fetch start_fetch use_logs build_query
not_found x (inl (e, f)) = other_project (
    sym (ap (λ q. q.project_id) (use_logs_inj (first_search "p1") (first_search "p2") true true e)))
not_found x (inr n) = n

not_analyzed :
    (a : LogAnalytics) → Answered (use_analytics "p2" true).query_key a explorer.statistics → ⊥
unfolding steps step Shell.step App.step App.check start_check get_item App.guard screen
    settle_check App.with_projects settle_fetch start_fetch
not_analyzed a h = h

switch_keeps_rows_example :
    Switches to_fixed as_given as_given ws_url parse as_given as_given observe observe
      observe-IsDocumented observe-IsDocumented
      (step ws_url parse as_given as_given (in_shell click) explorer)
      (project "p2")
      explorer.place
      explorer.explorer
      (page_of "l1")
      (page_of "l2")
switch_keeps_rows_example =
    switch_keeps_rows to_fixed as_given as_given ws_url parse as_given as_given observe observe
      observe-IsDocumented observe-IsDocumented click explorer (project "p1") (project "p2")
      (page_of "l1") (page_of "l2") explorer-IsWatched (ap shows_logs explorer-place)
      explorer-project (ap (λ r. r.value) explorer-page) (λ e. cc e) click-project other_project
      not_found not_analyzed

failed_search_example :
    let q = logs_query as_given explorer.place (project "p1") explorer.explorer in
    let t = step ws_url parse as_given as_given (searched q none) explorer in
    let show = page_shown to_fixed as_given as_given observe observe in
    (rows_shown (show t)
      ≡ failed_at to_fixed as_given as_given explorer.place
          (own (observe explorer.searches))
          explorer.explorer)
    × IsLast (use_logs q true).query_key (own (observe explorer.searches)) explorer.searches
    × (rows_shown (show (step ws_url parse as_given as_given (searched q (some (page_of "l2"))) t))
        ≡ rows_at to_fixed as_given as_given explorer.place (page_of "l2") explorer.explorer)
failed_search_example =
    failed_search to_fixed as_given as_given ws_url parse as_given as_given observe observe
      observe-IsDocumented observe-IsDocumented explorer (project "p1") (page_of "l2")
      explorer-IsWatched (ap shows_logs explorer-place) explorer-project

-- A server whose one log matches every query, and its page.
abbrev all_logs : LogQuery → List LogEntry
all_logs q = entry "l1" ∷ []

abbrev sent : LogQuery → LogListResponse
sent q =
    let limit : ℕ = elim q.limit [ none ↦ 50 | some n ↦ n ] in
    let offset : ℕ = elim q.offset [ none ↦ 0 | some n ↦ n ] in
    record {
      logs = take limit (drop offset (all_logs q));
      total = 1;
      limit = limit;
      offset = offset;
    }

sent-IsPaged : IsPaged all_logs sent
sent-IsPaged = record { total = λ q. refl; page = λ q limit offset l o. rw (l, o) refl }

-- The explorer on its second page.
abbrev next_page : Op ws_url parse as_given as_given
next_page = turns 50

abbrev second_page : Site
second_page = step ws_url parse as_given as_given next_page explorer

second_page-IsWatched : IsWatched ws_url parse as_given as_given second_page
second_page-IsWatched =
    step-IsWatched ws_url parse as_given as_given next_page explorer explorer-IsWatched

second_page-project : shown_project second_page ≡ some (project "p1")
unfolding steps step Shell.step App.step App.check start_check get_item App.guard screen
    settle_check App.with_projects settle_fetch start_fetch page_change
second_page-project = refl

second_page-place : second_page.place ≡ at_logs
unfolding steps step Shell.step App.step App.check start_check get_item App.guard screen
    settle_check App.with_projects settle_fetch start_fetch page_change
second_page-place = refl

second_page-offset : second_page.explorer ≡ page_change 50 Explorer.initial
unfolding steps step Shell.step App.step App.check start_check get_item App.guard screen
    settle_check App.with_projects settle_fetch start_fetch page_change
second_page-offset = refl

second_page-click :
    shown_project (step ws_url parse as_given as_given (in_shell click) second_page)
    ≡ some (project "p2")
unfolding steps step Shell.step App.step App.check start_check get_item App.guard screen
    settle_check App.with_projects settle_fetch start_fetch Shell.hand_over Sidebar.apply
    pick_project switch_project page_change
second_page-click = refl

second_page-idle : has_active_filters second_page.explorer ≡ false
unfolding has_active_filters page_change
second_page-idle = rw second_page-offset refl

second_page-past :
    (sent (build_query as_given "p2" second_page.explorer)).total ≤ second_page.explorer.offset
unfolding page_change
second_page-past = rw second_page-offset (omega arith)

switch_keeps_offset_example :
    (current second_page.searches
      ≡ some (use_logs (build_query as_given "p1" second_page.explorer) true).query_key)
    × Overshoots all_logs sent sent-IsPaged as_given to_fixed as_given as_given ws_url parse
        as_given observe observe observe-IsDocumented observe-IsDocumented
        (step ws_url parse as_given as_given (in_shell click) second_page)
        (project "p2")
        second_page.explorer
switch_keeps_offset_example =
    switch_keeps_offset all_logs sent sent-IsPaged as_given to_fixed as_given as_given ws_url parse
      as_given observe observe observe-IsDocumented observe-IsDocumented click second_page
      (project "p1") (project "p2") second_page-IsWatched second_page-place second_page-project
      (λ e. cc e) second_page-click second_page-idle second_page-past
