-- ===== src/Site.antt =====
-- The pages of frontend/src/app/dashboard in the shell of its layout.tsx, with the queries that they
-- render: page.tsx, analytics/page.tsx, logs/page.tsx. The events of `useLogs` and of `useAnalytics`
-- are kept, the newest first; what the hooks return for them is a parameter where it is needed.
pub mod View
pub mod Watched
pub mod Origins
pub mod Charts
pub mod Found
pub mod Rows
pub mod Switch
pub mod Failure
pub mod Offset
use org_log.Prelude.{
  ℕ, String, Bool, true, false, Option, none, some, List, [], ◌∷◌, is_some, if◌then◌else◌,
}
use org_log.Types.{LiveLogMessage, LogQuery, LogListResponse, LogAnalytics, Project}
use org_log.Browser.Storage.{Storage}
use org_log.Queries.{Query, use_logs, use_analytics}
use org_log.Queries.Observer.{Event, renders, settles, unmounts}
use org_log.Explorer.{Explorer, Field, filter_change, page_change, clear_filters, build_query}
use org_log.Explorer as Explorer
use org_log.Analytics.{recent_query}
use org_log.Shell.{Shell, visits}
use org_log.Shell as Shell

-- The pages by the hooks that they call; the live tail calls neither.
pub data Place : Type 0 where
  at_dashboard at_analytics at_logs at_live : Place

-- `explorer`: the state of the explorer's page, while it is mounted.
pub record Site : Type 0 where
  pub shell : Shell
  pub place : Place
  pub explorer : Explorer
  pub searches : List (Event LogListResponse)
  pub statistics : List (Event LogAnalytics)

-- The project that a page shows: `none` also while no page is mounted.
abbrev pub shown_project : Site → Option Project
shown_project s = if s.shell.app.is_mounted then s.shell.app.projects.current_project else none

-- `useAnalytics(projectId)`
abbrev pub statistics_call : Place → Option Project → Option Query
statistics_call place none = none
statistics_call at_dashboard (some p) = some (use_analytics p.id true)
statistics_call at_analytics (some p) = some (use_analytics p.id true)
statistics_call at_logs (some p) = none
statistics_call at_live (some p) = none

-- A hook that is not called belongs to a component that is not mounted.
abbrev pub event_of : {A : Type 0} → Option Query → Event A
event_of none = unmounts
event_of (some q) = renders q

-- The explorer is there.
abbrev pub explores : Place → Option Project → Bool
explores at_logs shown = is_some shown
explores at_dashboard shown = false
explores at_analytics shown = false
explores at_live shown = false

abbrev pub edited : (Explorer → Explorer) → Site → Site
edited edit s =
    if explores s.place (shown_project s) then record s { explorer = edit s.explorer } else s

-- Another page is mounted afresh.
abbrev pub left : Site → Site
left s = record s {
  explorer = Explorer.initial;
  searches = unmounts ∷ s.searches;
  statistics = unmounts ∷ s.statistics;
}

module _ (to_iso : String → String) where
  -- `useLogs(query)`
  abbrev pub search_call : Place → Option Project → Explorer → Option Query
  search_call place none e = none
  search_call at_dashboard (some p) e = some (use_logs (recent_query p.id) true)
  search_call at_logs (some p) e = some (use_logs (build_query to_iso p.id e) true)
  search_call at_analytics (some p) e = none
  search_call at_live (some p) e = none

module _ (ws_url : String) (parse : String → Option LiveLogMessage) (trim : String → String)
    (to_iso : String → String) where
  -- The page is rendered.
  unfoldable pub render : Site → Site
  render s = record s {
    explorer = if s.shell.app.is_mounted then s.explorer else Explorer.initial;
    searches = event_of (search_call to_iso s.place (shown_project s) s.explorer) ∷ s.searches;
    statistics = event_of (statistics_call s.place (shown_project s)) ∷ s.statistics;
  }

  -- `opens`: the user goes to a page; `changes`, `turns` and `clears`: the filters and the pages of the
  -- explorer; `searched` and `analyzed`: a query function has its answer, or has failed.
  pub data Op : Type 0 where
    in_shell : Shell.Op ws_url parse trim → Op
    opens : Place → Op
    changes : Field → String → Op
    turns : ℕ → Op
    clears : Op
    searched : LogQuery → Option LogListResponse → Op
    analyzed : String → Option LogAnalytics → Op

  -- What an operation changes before the render that it brings.
  unfoldable pub act : Op → Site → Site
  act (in_shell visits) s = left (record s { shell = Shell.step ws_url parse trim visits s.shell })
  act (in_shell o) s = record s { shell = Shell.step ws_url parse trim o s.shell }
  act (opens place) s =
      left (record s { place = place; shell = Shell.step ws_url parse trim visits s.shell })
  act (changes f v) s = edited (filter_change f v) s
  act (turns offset) s = edited (page_change offset) s
  act clears s = edited clear_filters s
  act (searched q reply) s = record s { searches = settles (use_logs q true) reply ∷ s.searches }
  act (analyzed id reply) s = record s {
    statistics = settles (use_analytics id true) reply ∷ s.statistics;
  }

  unfoldable pub step : Op → Site → Site
  unfolding act render
  step o s = render (act o s)

  unfoldable pub steps : List Op → Site → Site
  steps [] s = s
  steps (o ∷ os) s = steps os (step o s)

  -- The first page that is opened, with what the browser has stored.
  abbrev pub opened : Place → Storage → Site
  opened place storage = render (record {
    shell = Shell.opened ws_url parse trim storage;
    place = place;
    explorer = Explorer.initial;
    searches = [];
    statistics = [];
  })
