-- ===== src/App.antt =====
-- frontend/src/app/dashboard/layout.tsx with the providers that it nests, and the sign-in pages
-- beside it: who is mounted when, and what each hands to the next. The guard mounts the providers of
-- the projects and of the live logs while somebody is signed in; every change of the projects renders
-- the live logs with their `projectId`; all share one localStorage, whose copy in the session
-- is the current one.
pub mod Linked
pub mod Events
pub mod Visits
pub mod Steps
pub mod Start
pub mod Late
use org_log.Prelude.{not, ◌&&◌, ℕ, String, Bool, true, false, Option, List, [], ◌∷◌, if◌then◌else◌}
use org_log.Types.{LiveLogMessage, Project, User}
use org_log.Browser.Storage.{Storage}
use org_log.Auth.{Reply, AuthApi, Session, is_authenticated, start_check, settle_check, logout}
use org_log.Auth as Auth
use org_log.Auth.Guard.{Screen, screen}
use org_log.Auth.Pages.{Page, submit_login, submit_register}
use org_log.Projects.{
  Projects, project_id, start_fetch, settle_fetch, switch_project, create_project,
}
use org_log.Projects as Projects
use org_log.Live as Live
use org_log.Live.{LiveLogs, mount, render, cleanup_ws}
use org_log.Live.Events.{
  Event, opened, received, failed, closed, timed_out, user_reconnects, user_clears, user_streams,
  rendered, handle,
}

-- `is_mounted`: the children of the guard are. Without them `projects` and `live` are what they
-- have left behind. `checking`: the layout that is mounted waits for the answer to its check.
pub record App : Type 0 where
  pub session : Session
  pub is_mounted : Bool
  pub checking : Bool
  pub projects : Projects
  pub live : LiveLogs

abbrev pub shows_dashboard : Screen → Bool
shows_dashboard Screen.dashboard = true
shows_dashboard Screen.spinner = false
shows_dashboard Screen.nothing = false

-- Unmounting runs the cleanup of the live logs' effect.
unfoldable pub leave : App → App
leave a = record a { is_mounted = false; live = cleanup_ws a.live }

-- The session after a write to the storage by somebody else.
abbrev pub with_storage : Storage → Session → Session
with_storage storage s = record s { storage = storage }

-- A write to the storage by a provider of projects that is gone: nothing else is left of what it does.
unfoldable pub with_late : Projects → App → App
with_late p a = record a {
  session = with_storage p.storage a.session;
  projects = record a.projects { storage = p.storage };
}

-- An answer to `projectsApi.list` or to `projectsApi.create` for a provider that is gone. React drops
-- its changes of the state; the storage is read and written when the answer is there.
unfoldable pub late_list : Reply (List Project) → App → App
unfolding with_late
late_list reply a = with_late (settle_fetch reply (Projects.initial a.session.storage)) a

unfoldable pub late_project : Reply Project → App → App
unfolding with_late
late_project reply a = with_late (create_project reply (Projects.initial a.session.storage)).1 a

module _ (ws_url : String) (parse : String → Option LiveLogMessage) where
  unfoldable pub enter : App → App
  enter a =
      let projects : Projects = Projects.initial a.session.storage in
      record a { is_mounted = true; projects = projects; live = mount ws_url (project_id projects) }

  -- The guard renders for a session.
  unfoldable pub guard : Session → App → App
  unfolding enter leave
  guard s a =
      let b : App = record a { session = s } in
      if shows_dashboard (screen s)
      then (if a.is_mounted then b else enter b)
      else (if a.is_mounted then leave b else b)

  -- A new state of the projects, and the render of what depends on it.
  unfoldable pub with_projects : Projects → App → App
  with_projects p a = record a {
    session = with_storage p.storage a.session;
    projects = p;
    live = render ws_url (project_id p) a.live;
  }

  -- An event of the live logs; a render comes with the project of the context.
  unfoldable pub happen : Event → App → App
  happen (rendered q) a = record a {
    live = handle ws_url parse (rendered (project_id a.projects)) a.live;
  }
  happen e a = record a { live = handle ws_url parse e a.live }

  -- The check on mount: without a token that is not empty it is over.
  unfoldable pub check : Bool × Session → App → App
  check (true, s) a = record a { checking = true }
  check (false, s) a = guard s a

  -- `loads`: the layout is mounted afresh, by a page load or by the way from another page; `checks` and
  -- `checked`: its check on mount starts, and is answered while that layout is mounted; `asks` and
  -- `answers`: the list of the projects is asked for, and comes while the provider that asked is
  -- mounted; `lists_late` and `creates_late`: an answer comes for a provider that is gone, while none is
  -- mounted; `signs_in` and `signs_up`: a form of the sign-in pages is sent, which are not shown while
  -- the dashboard is.
  pub data Op : Type 0 where
    loads checks signs_out asks : Op
    checked : Reply User → Op
    signs_in signs_up : AuthApi → Page → Op
    answers lists_late : Reply (List Project) → Op
    switches : String → Op
    creates creates_late : Reply Project → Op
    happens : Event → Op

  unfoldable pub step : Op → App → App
  step loads a = guard (Auth.initial a.session.storage) (record a { checking = false })
  step checks a =
      if a.session.is_loading && not a.checking then check (start_check a.session) a else a
  step (checked reply) a =
      if a.checking then guard (settle_check reply a.session) (record a { checking = false }) else a
  step (signs_in api p) a = if a.is_mounted then a else record a {
    session =
        with_storage (submit_login api (record p { storage = a.session.storage })).storage
          a.session;
  }
  step (signs_up api p) a = if a.is_mounted then a else record a {
    session =
        with_storage (submit_register api (record p { storage = a.session.storage })).storage
          a.session;
  }
  step signs_out a = if a.is_mounted then guard (logout a.session) a else a
  step asks a =
      if a.is_mounted
      then with_projects (start_fetch (is_authenticated a.session) a.projects) a
      else a
  step (answers reply) a =
      if a.is_mounted then with_projects (settle_fetch reply a.projects) a else a
  step (lists_late reply) a = if a.is_mounted then a else late_list reply a
  step (creates_late reply) a = if a.is_mounted then a else late_project reply a
  step (switches id) a = if a.is_mounted then with_projects (switch_project id a.projects) a else a
  step (creates reply) a =
      if a.is_mounted then with_projects (create_project reply a.projects).1 a else a
  step (happens e) a = if a.is_mounted then happen e a else a

  unfoldable pub steps : List Op → App → App
  steps [] a = a
  steps (o ∷ os) a = steps os (step o a)

  -- The layout's first render, with what the browser has stored.
  abbrev pub opened_at : Storage → App
  opened_at storage = record {
    session = Auth.initial storage;
    is_mounted = false;
    checking = false;
    projects = Projects.initial storage;
    live = Live.initial "";
  }
