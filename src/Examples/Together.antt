-- ===== src/Examples/Together.antt =====
-- Sessions of the whole dashboard: sign-ins, projects, connections and pages together.
use org_log.Prelude.{◌≡◌, ◌⊎◌, inl, refl, true, false, some, none, List, [], ◌∷◌, is_some}
use org_log.Browser.{held, listening}
use org_log.Auth.{ok, fail, is_authenticated, token, login, restore, initial}
use org_log.Auth.Guard.{screen, dashboard}
use org_log.Auth.Entry.{restore-submit_login}
use org_log.Auth.Pages.{Page, login_request, start, submit_login, submit_register}
use org_log.Auth.Forms.{
  blank, type_email_prefix, type_password, login_form, register_form, IsWaiting, IsAnswered,
  submitted_forms,
}
use org_log.Projects.{
  project_id, find_project, start_fetch, settle_fetch, create_project, saved_id,
  selected_project_key, find_saved,
}
use org_log.Projects as Projects
use org_log.Projects.Selected.{IsSelected}
use org_log.Projects.Races.{Waiting, IsInOrder, apply_all-IsInOrder, stale_answer}
use org_log.Projects.Races as Races
use org_log.Live.Cleanup.{IsQuiet, current}
use org_log.Live.Link.{started, link_of, advance_all}
use org_log.Live.Link.Refinement.{mount-run-link}
use org_log.Live.Events.{Event, opened, received, closed, timed_out, user_streams, rendered, run}
use org_log.Live.{mount, new_socket}
use org_log.App.{
  App, shows_dashboard, Op, loads, signs_out, asks, checks, checked, signs_in, answers, switches,
  creates, happens, steps, opened_at,
}
use org_log.App.Steps.{steps_linked}
use org_log.App.Start.{Opens, start_up}
use org_log.Browser.Storage.{Storage, get_item}
use org_log.Config.{auth_token_key}
use org_log.Examples.{ws_url, parse, server, ada, project}

-- A loss with its retry, a switch of the project and a pause.
abbrev session : List Event
session =
    opened 1 ∷ closed 1 ∷ timed_out 2 ∷ received 3 "hello" ∷ rendered "p2" ∷ user_streams false ∷ []

mount-run-link_example :
    link_of (run ws_url parse session (mount ws_url "p1")) ≡ advance_all session (started "p1")
mount-run-link_example = mount-run-link ws_url parse "p1" session

abbrev filled : Page
filled = type_password "secret99" (type_email_prefix "ada" (blank []))

-- A visit: nobody, a sign-in, two projects, a switch, a loss, a new project, a sign-out.
abbrev visit : List (Op ws_url parse)
visit =
    checks
    ∷ signs_in server filled
    ∷ loads
    ∷ checks
    ∷ checked (ok ada)
    ∷ asks
    ∷ answers (ok (project "p1" ∷ project "p2" ∷ []))
    ∷ happens (opened 1)
    ∷ switches "p2"
    ∷ happens (closed 2)
    ∷ creates (ok (project "p3"))
    ∷ signs_out
    ∷ []

abbrev left : App
left = steps ws_url parse visit (opened_at ws_url parse [])

steps_linked_example :
    ((shows_dashboard (screen left.session) ≡ true)
      × (is_authenticated left.session ≡ true)
      × (is_some (token left.session) ≡ true)
      × IsSelected left.projects
      × (left.live.project_id ≡ project_id left.projects)
      × (held left.live.sockets ≡ current ws_url (project_id left.projects) left.live.ws_ref))
    ⊎ ((shows_dashboard (screen left.session) ≡ false) × IsQuiet left.live)
steps_linked_example = steps_linked ws_url parse visit []

abbrev remembering : Storage
remembering = (auth_token_key, "tok") ∷ (selected_project_key, "p2") ∷ []

abbrev loaded : App
loaded =
    steps ws_url parse
      (checks ∷ checked (ok ada) ∷ asks ∷ answers (ok (project "p1" ∷ project "p2" ∷ [])) ∷ [])
      (opened_at ws_url parse remembering)

remembering-token : get_item auth_token_key remembering ≡ some "tok"
unfolding get_item
remembering-token = refl

remembering-p2 :
    Opens
      (get_item selected_project_key remembering)
      (project "p1" ∷ project "p2" ∷ [])
      (project "p2")
unfolding get_item find_saved
remembering-p2 = inl refl

start_up_example :
    (screen loaded.session ≡ dashboard)
    × (loaded.projects.current_project ≡ some (project "p2"))
    × (saved_id loaded.projects ≡ some "p2")
    × (listening loaded.live.sockets ≡ new_socket ws_url 1 "p2" ∷ [])
    × (held loaded.live.sockets ≡ new_socket ws_url 1 "p2" ∷ [])
    × (loaded.live.is_connecting ≡ true)
start_up_example =
    start_up ws_url parse remembering "tok" ada (project "p1" ∷ project "p2" ∷ []) (project "p2")
      remembering-token refl remembering-p2 refl

abbrev work : List Races.Op
work =
    Races.asks true
    ∷ Races.creates (ok (project "p3"))
    ∷ Races.asks true
    ∷ Races.answers (ok (project "p1" ∷ project "p2" ∷ []))
    ∷ Races.switches "p2"
    ∷ Races.answers (fail none)
    ∷ []

abbrev fresh : Waiting
fresh = record { state = Projects.initial []; pending = 0 }

fresh-IsInOrder : IsInOrder fresh
fresh-IsInOrder = record { selected = tt; running = inl refl }

apply_all-IsInOrder_example : IsInOrder (Races.apply_all work fresh)
apply_all-IsInOrder_example = apply_all-IsInOrder work fresh fresh-IsInOrder

abbrev before : Projects.Projects
before = (create_project (ok (project "p3")) (start_fetch true (Projects.initial []))).1

abbrev after : Projects.Projects
after = settle_fetch (ok (project "p1" ∷ project "p2" ∷ [])) before

stale_answer_example :
    (before.current_project ≡ some (project "p3"))
    × (after.projects ≡ project "p1" ∷ project "p2" ∷ [])
    × (after.current_project ≡ some (project "p1"))
    × (saved_id after ≡ some "p1")
stale_answer_example =
    stale_answer (project "p3") (project "p1") (project "p2" ∷ []) (Projects.initial []) refl

restore-submit_login_example :
    ((submit_login server filled).storage
      ≡ (login server (login_request filled) (initial [])).1.storage)
    × ((restore server (initial (submit_login server filled).storage)).user
        ≡ (login server (login_request filled) (initial [])).1.user)
unfolding type_password type_email_prefix
restore-submit_login_example =
    restore-submit_login server filled (record { access_token = "tok"; token_type = "bearer" }) refl
      refl

submitted_forms_example :
    IsWaiting (login_form (start filled))
    × IsWaiting (register_form (start filled))
    × ((login_form (submit_login server filled)).submit ≡ some "Sign in")
    × ((login_form (submit_login server filled)).disabled ≡ false)
    × IsAnswered filled (submit_login server filled) (login_form (submit_login server filled))
    × ((register_form (submit_register server filled)).submit ≡ some "Create account")
    × ((register_form (submit_register server filled)).disabled ≡ true)
    × IsAnswered filled
        (submit_register server filled)
        (register_form (submit_register server filled))
unfolding type_password type_email_prefix
submitted_forms_example = submitted_forms server filled
