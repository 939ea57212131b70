-- ===== src/Site/Watched.antt =====
-- The queries that the pages watch, through whatever happens, and where the answers come from.
use org_log.Prelude.{
  ◌≡◌, ◌∙◌, inl, inr, refl, sym, subst, ap, String, Bool, true, false, Option, none, some, List, [],
  ◌∷◌, if◌then◌else◌, Bool-cases,
}
use org_log.Types.{LiveLogMessage, LogAnalytics, Project}
use org_log.Browser.Storage.{Storage}
use org_log.Queries.{QueryKey, Query, use_analytics}
use org_log.Queries.Observer.{Event, current, Answered}
use org_log.Queries.Shown.{IsPlain}
use org_log.Explorer.{Explorer, filter_change, page_change, clear_filters}
use org_log.Explorer as Explorer
use org_log.Shell.{visits}
use org_log.Shell as Shell
use org_log.Shell.Within.{IsWhole}
use org_log.Shell.Whole.{step-IsWhole, opened-IsWhole}
use org_log.Site.{
  Place, at_dashboard, at_analytics, at_logs, at_live, Site, shown_project, statistics_call,
  event_of, search_call, render, Op, in_shell, opens, changes, turns, clears, searched, analyzed,
  act, step, steps, opened, edited, explores,
}

abbrev pub key_of : Option Query → Option QueryKey
key_of none = none
key_of (some q) = some q.query_key

pub event-current :
    {A : Type 0} (c : Option Query) (h : List (Event A)) → current (event_of c ∷ h) ≡ key_of c
event-current none h = refl
event-current (some q) h = refl

pub event-Answered :
    {A : Type 0} (c : Option Query) (k : QueryKey) (d : A) (h : List (Event A))
    → Answered k d (event_of c ∷ h)
    → Answered k d h
event-Answered none k d h a = a
event-Answered (some q) k d h a = a

statistics_call-IsPlain :
    (place : Place) (shown : Option Project) (h : List (Event LogAnalytics))
    → IsPlain h
    → IsPlain (event_of (statistics_call place shown) ∷ h)
unfolding use_analytics
statistics_call-IsPlain place none h p = p
statistics_call-IsPlain at_dashboard (some q) h p = (refl, p)
statistics_call-IsPlain at_analytics (some q) h p = (refl, p)
statistics_call-IsPlain at_logs (some q) h p = p
statistics_call-IsPlain at_live (some q) h p = p

-- An edit of the explorer leaves the rest alone.
pub edited-same :
    {A : Type 0} (f : Site → A) (edit : Explorer → Explorer) (s : Site)
    → ((e : Explorer) → f (record s { explorer = e }) ≡ f s)
    → f (edited edit s) ≡ f s
edited-same f edit s h = elim (Bool-cases (explores s.place (shown_project s))) [
  | inl b ↦ rw b (h (edit s.explorer))
  | inr b ↦ rw b refl
]

module _ (ws_url : String) (parse : String → Option LiveLogMessage) (trim : String → String)
    (to_iso : String → String) where
  -- What the hooks of a page were last called with.
  pub record IsWatched (s : Site) : Type 0 where
    pub statistics : current s.statistics ≡ key_of (statistics_call s.place (shown_project s))
    pub searches :
        current s.searches ≡ key_of (search_call to_iso s.place (shown_project s) s.explorer)
    pub plain : IsPlain s.statistics
    pub whole : IsWhole ws_url s.shell

  search_call-initial :
      (b : Bool) (place : Place) (shown : Option Project) (e : Explorer)
      → let p = if b then shown else none in
        search_call to_iso place p e
        ≡ search_call to_iso place p (if b then e else Explorer.initial)
  search_call-initial true place shown e = refl
  search_call-initial false place shown e = refl

  render-IsWatched :
      (s : Site)
      → IsPlain s.statistics
      → IsWhole ws_url s.shell
      → IsWatched (render ws_url parse trim to_iso s)
  unfolding render
  render-IsWatched s p w = record {
    statistics = event-current (statistics_call s.place (shown_project s)) s.statistics;
    searches =
        event-current (search_call to_iso s.place (shown_project s) s.explorer) s.searches
        ∙ ap key_of (
            search_call-initial s.shell.app.is_mounted s.place s.shell.app.projects.current_project
              s.explorer);
    plain = statistics_call-IsPlain s.place (shown_project s) s.statistics p;
    whole = w;
  }

  act-IsPlain :
      (o : Op ws_url parse trim to_iso) (s : Site)
      → IsPlain s.statistics
      → IsPlain (act ws_url parse trim to_iso o s).statistics
  unfolding act
  act-IsPlain (in_shell visits) s p = p
  act-IsPlain (in_shell (Shell.in_app o)) s p = p
  act-IsPlain (in_shell (Shell.in_sidebar o)) s p = p
  act-IsPlain (in_shell (Shell.in_form o)) s p = p
  act-IsPlain (opens place) s p = p
  act-IsPlain (changes f v) s p =
      subst IsPlain (sym (edited-same (λ t. t.statistics) (filter_change f v) s (λ e. refl))) p
  act-IsPlain (turns n) s p =
      subst IsPlain (sym (edited-same (λ t. t.statistics) (page_change n) s (λ e. refl))) p
  act-IsPlain clears s p =
      subst IsPlain (sym (edited-same (λ t. t.statistics) clear_filters s (λ e. refl))) p
  act-IsPlain (searched q reply) s p = p
  act-IsPlain (analyzed id reply) s p = p

  act-IsWhole :
      (o : Op ws_url parse trim to_iso) (s : Site)
      → IsWhole ws_url s.shell
      → IsWhole ws_url (act ws_url parse trim to_iso o s).shell
  unfolding act
  act-IsWhole (in_shell visits) s w = step-IsWhole ws_url parse trim visits s.shell w
  act-IsWhole (in_shell (Shell.in_app o)) s w =
      step-IsWhole ws_url parse trim (Shell.in_app o) s.shell w
  act-IsWhole (in_shell (Shell.in_sidebar o)) s w =
      step-IsWhole ws_url parse trim (Shell.in_sidebar o) s.shell w
  act-IsWhole (in_shell (Shell.in_form o)) s w =
      step-IsWhole ws_url parse trim (Shell.in_form o) s.shell w
  act-IsWhole (opens place) s w = step-IsWhole ws_url parse trim visits s.shell w
  act-IsWhole (changes f v) s w =
      subst (IsWhole ws_url) (sym (edited-same (λ t. t.shell) (filter_change f v) s (λ e. refl))) w
  act-IsWhole (turns n) s w =
      subst (IsWhole ws_url) (sym (edited-same (λ t. t.shell) (page_change n) s (λ e. refl))) w
  act-IsWhole clears s w =
      subst (IsWhole ws_url) (sym (edited-same (λ t. t.shell) clear_filters s (λ e. refl))) w
  act-IsWhole (searched q reply) s w = w
  act-IsWhole (analyzed id reply) s w = w

  pub step-IsWatched :
      (o : Op ws_url parse trim to_iso) (s : Site)
      → IsWatched s
      → IsWatched (step ws_url parse trim to_iso o s)
  unfolding step
  step-IsWatched o s h =
      render-IsWatched (act ws_url parse trim to_iso o s) (act-IsPlain o s h.plain)
        (act-IsWhole o s h.whole)

  pub steps-IsWatched :
      (os : List (Op ws_url parse trim to_iso)) (s : Site)
      → IsWatched s
      → IsWatched (steps ws_url parse trim to_iso os s)
  unfolding steps
  steps-IsWatched [] s h = h
  steps-IsWatched (o ∷ os) s h =
      steps-IsWatched os (step ws_url parse trim to_iso o s) (step-IsWatched o s h)

  pub opened-IsWatched :
      (place : Place) (storage : Storage)
      → IsWatched (opened ws_url parse trim to_iso place storage)
  opened-IsWatched place storage = render-IsWatched _ tt (opened-IsWhole ws_url parse trim storage)

-- A page shows the project that the sidebar shows.
pub shown-IsWhole :
    (ws_url : String) (s : Site) (p : Project)
    → IsWhole ws_url s.shell
    → shown_project s ≡ some p
    → (s.shell.app.is_mounted ≡ true)
      × (s.shell.app.projects.current_project ≡ some p)
      × (s.shell.sidebar.projects.current_project ≡ some p)
shown-IsWhole ws_url s p w e = elim (Bool-cases s.shell.app.is_mounted) [
  | inl m ↦
      let at : s.shell.app.projects.current_project ≡ some p =
        sym (ap (λ b. if b then s.shell.app.projects.current_project else none) m) ∙ e in
      (m, at, ap (λ q. q.current_project) (w.within m).seen.projects ∙ at)
  | inr m ↦ absurd (cc (ap (λ b. if b then s.shell.app.projects.current_project else none) m, e))
]
