-- ===== src/Examples/Inside.antt =====
-- Sessions of the dashboard through its sidebar and the form for a first project.
use org_log.Prelude.{
  ◌≡◌, ◌≢◌, ◌⊎◌, inl, inr, eq_iff, arith, refl, subst, String, true, false, none, some, List, [],
  ◌∷◌, str_eq, if◌then◌else◌,
}
use org_log.Browser.{held}
use org_log.Browser.Storage.{Storage, get_item}
use org_log.Config.{auth_token_key}
use org_log.Auth.{ok}
use org_log.Auth.Guard.{screen}
use org_log.Projects.{project_id, saved_id, selected_project_key, fetch_projects}
use org_log.Projects as Projects
use org_log.Live.Cleanup.{IsTidy, IsQuiet, current}
use org_log.App.{App, shows_dashboard, checks, checked, asks, answers, opened_at, late_list}
use org_log.App as App
use org_log.App.Late.{late_list_forgets}
use org_log.Sidebar.{clicks_project_menu, shows_form, types_name, enters, picks_project, signs_out}
use org_log.Sidebar as Sidebar
use org_log.NoProject.{opens_form}
use org_log.NoProject as NoProject
use org_log.Shell.{
  Shell, Op, in_app, in_sidebar, in_form, visits, step, steps, opened, fresh_sidebar, fresh_form,
}
use org_log.Shell.Within.{IsWithin, IsWhole, fresh-IsWithin}
use org_log.Shell.SignOut.{signs_out-IsQuiet}
use org_log.Live.Events.{Event, closed, timed_out, received, run}
use org_log.Auth.{restore}
use org_log.Auth as Auth
use org_log.Shell.Chosen.{IsChosen, step-IsChosen}
use org_log.Auth.Backed.{IsBacked}
use org_log.Projects.Selected.{IsSelected}
use org_log.App.Linked.{IsLinked}
use org_log.Live.{mount, run_effect, connect, cleanup_ws, open_socket}
use org_log.Live.Single.{mount-IsTidy}
use org_log.Live.Switch.{Connects}
use org_log.Shell.Whole.{trace, opened-steps, steps_whole}
use org_log.Examples.{ws_url, parse, ada, project, server}

-- A `trim` that knows one blank text.
abbrev trim : String → String
trim v = if str_eq v " " then "" else v

abbrev signed_in : Storage
signed_in = (auth_token_key, "tok") ∷ []

-- A first project by the form, a second one by the sidebar, back to the first, and out.
abbrev session : List (Op ws_url parse trim)
session =
    in_app checks
    ∷ in_app (checked (ok ada))
    ∷ in_app asks
    ∷ in_app (answers (ok []))
    ∷ in_form opens_form
    ∷ in_form (NoProject.types_name "Shop")
    ∷ in_form NoProject.enters
    ∷ visits
    ∷ in_form opens_form
    ∷ in_form (NoProject.types_name "Shop")
    ∷ in_form NoProject.enters
    ∷ in_form (NoProject.answers (ok (project "p1")))
    ∷ in_sidebar clicks_project_menu
    ∷ in_sidebar shows_form
    ∷ in_sidebar (types_name "Blog")
    ∷ in_sidebar enters
    ∷ in_sidebar (Sidebar.answers (ok (project "p2")))
    ∷ in_sidebar (picks_project "p1")
    ∷ []

abbrev inside : Shell
inside = steps ws_url parse trim session (opened ws_url parse trim signed_in)

steps_whole_example :
    ((shows_dashboard (screen inside.app.session) ≡ true)
      × IsWithin inside
      × (inside.app.live.project_id ≡ project_id inside.sidebar.projects)
      × (held inside.app.live.sockets
          ≡ current ws_url (project_id inside.sidebar.projects) inside.app.live.ws_ref))
    ⊎ ((shows_dashboard (screen inside.app.session) ≡ false) × IsQuiet inside.app.live)
steps_whole_example = steps_whole ws_url parse trim session signed_in

opened-steps_example :
    inside.app
    ≡ App.steps ws_url parse
        (trace ws_url parse trim session (opened ws_url parse trim signed_in))
        (opened_at ws_url parse signed_in)
opened-steps_example = opened-steps ws_url parse trim session signed_in

-- The project "p2" is shown and remembered when the list of another user arrives.
abbrev remembering : Storage
remembering = (selected_project_key, "p2") ∷ []

abbrev shown : App
shown = record (opened_at ws_url parse remembering) {
  projects = record (Projects.initial remembering) {
    projects = project "p3" ∷ project "p2" ∷ [];
    current_project = some (project "p2");
  };
}

remembering-p2 : get_item selected_project_key shown.session.storage ≡ some "p2"
unfolding get_item
remembering-p2 = refl

late_list_forgets_example :
    let b = late_list (ok (project "p1" ∷ [])) shown in
    (b.projects.current_project ≡ some (project "p2"))
    × (saved_id b.projects ≡ some "p1")
    × ((fetch_projects true
          (ok (project "p3" ∷ project "p2" ∷ []))
          (Projects.initial b.session.storage)).current_project
        ≡ some (project "p3"))
late_list_forgets_example =
    late_list_forgets (project "p2") (project "p1") (project "p3") [] (project "p2" ∷ []) shown refl
      remembering-p2 refl refl

-- A user who sees the first of two projects.
abbrev stored : Storage
stored = (auth_token_key, "tok") ∷ (selected_project_key, "p1") ∷ []

abbrev working : App
working = record {
  session = record { user = some ada; is_loading = false; storage = stored; visited = [] };
  is_mounted = true;
  checking = false;
  projects = record {
    projects = project "p1" ∷ project "p2" ∷ [];
    current_project = some (project "p1");
    is_loading = false;
    storage = stored;
  };
  live = mount ws_url "p1";
}

abbrev desk : Shell
desk = record { app = working; sidebar = fresh_sidebar working; form = fresh_form working }

working-IsSelected : IsSelected working.projects
unfolding get_item
working-IsSelected = (refl, inl (inl refl))

working-IsBacked : IsBacked working.session
unfolding get_item
working-IsBacked = inr refl

working-project : (mount ws_url "p1").project_id ≡ "p1"
unfolding mount run_effect connect cleanup_ws open_socket
working-project = refl

working-streams : working.live.is_streaming ≡ true
unfolding mount run_effect connect cleanup_ws open_socket
working-streams = refl

working-IsTidy : IsTidy ws_url "p1" (mount ws_url "p1")
working-IsTidy =
    subst (λ q. IsTidy ws_url q (mount ws_url "p1")) working-project (mount-IsTidy ws_url "p1")

working-IsLinked : IsLinked ws_url working
unfolding screen
working-IsLinked = record {
  guarded = refl;
  backed = working-IsBacked;
  fresh = inl refl;
  awaited = inl refl;
  inside = (working-IsTidy, working-project, working-IsSelected, refl);
}

desk-IsWhole : IsWhole ws_url desk
desk-IsWhole = record {
  linked = working-IsLinked;
  within = λ m. fresh-IsWithin working working-IsSelected working-IsBacked;
}

other : "p2" ≢ project_id working.projects
other e = absurd (ground (arith, (eq_iff "p2" "p1").1 e))

step-IsChosen_example :
    let t = step ws_url parse trim (in_sidebar (picks_project "p2")) desk in
    IsChosen (project "p2") t.sidebar.projects × Connects ws_url "p2" t.app.live
step-IsChosen_example =
    step-IsChosen ws_url parse trim (in_sidebar (picks_project "p2")) (project "p2") desk
      desk-IsWhole refl working-streams refl other (inl (refl, refl))

-- What the closed socket and its timeout might still bring.
abbrev leftovers : List Event
leftovers = closed 1 ∷ timed_out 2 ∷ received 1 "late" ∷ []

signs_out-IsQuiet_example :
    let a = (step ws_url parse trim (in_sidebar signs_out) desk).app in
    (shows_dashboard (screen a.session) ≡ false)
    × (a.session.visited ≡ "/login" ∷ [])
    × IsQuiet a.live
    × (run ws_url parse leftovers a.live ≡ a.live)
    × ((restore server (Auth.initial a.session.storage)).user ≡ none)
signs_out-IsQuiet_example =
    signs_out-IsQuiet ws_url parse trim server leftovers desk desk-IsWhole refl (omega arith)
