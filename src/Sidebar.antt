-- ===== src/Sidebar.antt =====
-- frontend/src/components/layout/sidebar.tsx and frontend/src/lib/providers/sidebar-provider.tsx: the
-- menus, the form for a new project and the links, with the providers' states that they change. The
-- initials of the user and the icons are left out; `trim` is a parameter. `requests`: the names in
-- the calls of `createProject` that have not settled, the last first.
pub mod Navigation
pub mod Account
pub mod Menus
use org_log.Prelude.{
  ℕ, String, Bool, true, false, not, ◌&&◌, ◌||◌, Option, none, some, List, [], ◌∷◌, truthy,
  opt_str_eq, map, if◌then◌else◌,
}
use org_log.Types.{Project}
use org_log.Auth.{Reply, ok, fail, Session, logout}
use org_log.Projects.{Projects, switch_project, create_project}

pub record Sidebar : Type 0 where
  pub collapsed : Bool
  pub project_dropdown_open : Bool
  pub user_dropdown_open : Bool
  pub show_new_project : Bool
  pub new_project_name : String
  pub creating : Bool
  pub requests : List String
  pub projects : Projects
  pub session : Session

-- `toggle` of the provider.
unfoldable pub toggle : Sidebar → Sidebar
toggle s = record s { collapsed = not s.collapsed }

unfoldable pub click_project_menu : Sidebar → Sidebar
click_project_menu s = record s {
  project_dropdown_open = not s.project_dropdown_open;
  user_dropdown_open = false;
}

unfoldable pub click_user_menu : Sidebar → Sidebar
click_user_menu s = record s {
  user_dropdown_open = not s.user_dropdown_open;
  project_dropdown_open = false;
}

-- A click on a project of the dropdown.
unfoldable pub pick_project : String → Sidebar → Sidebar
pick_project id s = record s {
  projects = switch_project id s.projects;
  project_dropdown_open = false;
}

unfoldable pub sign_out : Sidebar → Sidebar
sign_out s = record s { user_dropdown_open = false; session = logout s.session }

unfoldable pub show_form : Sidebar → Sidebar
show_form s = record s { show_new_project = true }

unfoldable pub type_name : String → Sidebar → Sidebar
type_name v s = record s { new_project_name = v }

-- The key Escape in the form.
unfoldable pub escape : Sidebar → Sidebar
escape s = record s { show_new_project = false; new_project_name = "" }

-- What `handleCreateProject` does with the answer.
unfoldable pub created : Reply Project → Sidebar → Sidebar
created (ok p) s = record s { new_project_name = ""; show_new_project = false; creating = false }
created (fail d) s = record s { creating = false }

-- `handleCreateProject` from its `await` on; an answer that nobody waits for changes nothing.
unfoldable pub finish_create : Reply Project → Sidebar → Sidebar
unfolding created
finish_create reply s = elim s.requests [
  | [] ↦ s
  | name ∷ names ↦
      created reply (record s { requests = names; projects = (create_project reply s.projects).1 })
]

module _ (trim : String → String) where
  -- The button "Add" is enabled.
  unfoldable pub can_add : Sidebar → Bool
  can_add s = not (not (truthy (trim s.new_project_name)) || s.creating)

  -- `handleCreateProject` up to its `await`.
  unfoldable pub start_create : Sidebar → Sidebar
  start_create s =
      if not (truthy (trim s.new_project_name)) || s.creating
      then s
      else record s { creating = true; requests = trim s.new_project_name ∷ s.requests }

  pub data Op : Type 0 where
    toggles clicks_project_menu clicks_user_menu signs_out shows_form enters escapes : Op
    picks_project types_name : String → Op
    answers : Reply Project → Op

  unfoldable pub apply : Op → Sidebar → Sidebar
  apply toggles s = toggle s
  apply clicks_project_menu s = click_project_menu s
  apply clicks_user_menu s = click_user_menu s
  apply signs_out s = sign_out s
  apply shows_form s = show_form s
  apply enters s = start_create s
  apply escapes s = escape s
  apply (picks_project id) s = pick_project id s
  apply (types_name v) s = type_name v s
  apply (answers reply) s = finish_create reply s

  unfoldable pub apply_all : List Op → Sidebar → Sidebar
  apply_all [] s = s
  apply_all (o ∷ os) s = apply_all os (apply o s)

-- An entry of the dropdown: the project, and if it is marked as the current one.
pub record Entry : Type 0 where
  pub project : Project
  pub is_current : Bool

abbrev pub current_id : Projects → Option String
current_id s = elim s.current_project [ none ↦ none | some p ↦ some p.id ]

unfoldable pub entries : Projects → List Entry
entries s =
    map (λ p. record { project = p; is_current = opt_str_eq (current_id s) p.id }) s.projects
