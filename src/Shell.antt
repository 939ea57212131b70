-- ===== src/Shell.antt =====
-- frontend/src/app/dashboard/layout.tsx, DashboardShell: what the guard mounts, with what stands in it.
-- The sidebar and the form of a page without a project have states of their own; the rest they take
-- from the contexts, so that a render hands them the layout's session and projects, and what
-- they do to these is a change of the layout.
pub mod Calls
pub mod Within
pub mod Whole
pub mod Chosen
pub mod SignOut
pub mod Layout
use org_log.Prelude.{
  String, Bool, true, false, not, ◌&&◌, Option, none, some, List, [], ◌∷◌, first, is_some,
  if◌then◌else◌,
}
use org_log.Types.{LiveLogMessage}
use org_log.Browser.Storage.{Storage}
use org_log.App.{App, guard, with_projects, opened_at}
use org_log.App as App
use org_log.Sidebar.{Sidebar, picks_project, signs_out}
use org_log.Sidebar as Sidebar
use org_log.NoProject.{NoProject}
use org_log.NoProject as NoProject

-- While the children of the guard are not mounted, the sidebar and the form are what they have left.
pub record Shell : Type 0 where
  pub app : App
  pub sidebar : Sidebar
  pub form : NoProject

-- The states on mount.
abbrev pub fresh_sidebar : App → Sidebar
fresh_sidebar a = record {
  collapsed = false;
  project_dropdown_open = false;
  user_dropdown_open = false;
  show_new_project = false;
  new_project_name = "";
  creating = false;
  requests = [];
  projects = a.projects;
  session = a.session;
}

abbrev pub fresh_form : App → NoProject
fresh_form a = record {
  name = "";
  creating = false;
  show_form = false;
  requests = [];
  projects = a.projects;
}

-- `if (!currentProject)`: the page shows the form.
abbrev pub shows_form : App → Bool
shows_form a = not (is_some a.projects.current_project)

-- A page with a project has no form; a later one is mounted afresh.
unfoldable pub form_with : App → NoProject → NoProject
form_with a f = if shows_form a then record f { projects = a.projects } else fresh_form a

abbrev pub sidebar_with : App → Sidebar → Sidebar
sidebar_with a s = record s { projects = a.projects; session = a.session }

-- The render that a change of the layout brings.
unfoldable pub rendered : App → Shell → Shell
unfolding form_with
rendered a s =
    if a.is_mounted
    then (if s.app.is_mounted
        then record { app = a; sidebar = sidebar_with a s.sidebar; form = form_with a s.form }
        else record { app = a; sidebar = fresh_sidebar a; form = fresh_form a })
    else record s { app = a }

module _ (ws_url : String) (parse : String → Option LiveLogMessage) (trim : String → String) where
  -- An answer comes only to a call that waits.
  abbrev pub is_due : Sidebar.Op trim → Sidebar → Bool
  is_due (Sidebar.answers reply) s = is_some (first s.requests)
  is_due _ s = true

  abbrev pub is_form_due : NoProject.Op trim → NoProject → Bool
  is_form_due (NoProject.answers reply) f = is_some (first f.requests)
  is_form_due _ f = true

  -- What the sidebar, after an operation, has done to the contexts.
  unfoldable pub hand_over : Sidebar.Op trim → Sidebar → App → App
  hand_over (picks_project id) s a = with_projects ws_url parse s.projects a
  hand_over (Sidebar.answers reply) s a = with_projects ws_url parse s.projects a
  hand_over signs_out s a = guard ws_url parse s.session a
  hand_over _ s a = a

  unfoldable pub hand_over_form : NoProject.Op trim → NoProject → App → App
  hand_over_form (NoProject.answers reply) f a = with_projects ws_url parse f.projects a
  hand_over_form _ f a = a

  -- `in_app`: whatever happens to the layout, which is also how a call of a form that is gone is
  -- answered; `visits`: the user opens another page of the dashboard, which the sidebar outlives.
  pub data Op : Type 0 where
    in_app : App.Op ws_url parse → Op
    in_sidebar : Sidebar.Op trim → Op
    in_form : NoProject.Op trim → Op
    visits : Op

  unfoldable pub step : Op → Shell → Shell
  unfolding rendered hand_over hand_over_form
  step (in_app o) s = rendered (App.step ws_url parse o s.app) s
  step (in_sidebar o) s =
      let t = Sidebar.apply trim o s.sidebar in
      if is_due o s.sidebar && s.app.is_mounted
      then rendered (hand_over o t s.app) (record s { sidebar = t })
      else s
  step (in_form o) s =
      let f = NoProject.apply trim o s.form in
      if is_form_due o s.form && (s.app.is_mounted && shows_form s.app)
      then rendered (hand_over_form o f s.app) (record s { form = f })
      else s
  step visits s = if s.app.is_mounted then record s { form = fresh_form s.app } else s

  unfoldable pub steps : List Op → Shell → Shell
  steps [] s = s
  steps (o ∷ os) s = steps os (step o s)

  -- The first render of the layout, with what the browser has stored.
  abbrev pub opened : Storage → Shell
  opened storage =
      let a = opened_at ws_url parse storage in
      record { app = a; sidebar = fresh_sidebar a; form = fresh_form a }
