-- ===== src/Projects.antt =====
-- frontend/src/lib/providers/project-provider.tsx. The answers of the server are arguments. The
-- answers may come in any order, between any other operations: a fetch is its start and its end.
pub mod Selected
pub mod Races
pub mod Restore
use org_log.Prelude.{
  String, Bool, true, false, Option, none, some, List, [], ◌∷◌, ◌++◌, find, str_eq, truthy, is_some,
  if◌then◌else◌,
}
use org_log.Types.{Project}
use org_log.Browser.Storage.{Storage, get_item, set_item}
use org_log.Auth.{Reply, ok, fail}

abbrev pub selected_project_key : String
selected_project_key = "orglog_selected_project"

pub record Projects : Type 0 where
  pub projects : List Project
  pub current_project : Option Project
  pub is_loading : Bool
  pub storage : Storage

abbrev pub initial : Storage → Projects
initial storage = record {
  projects = [];
  current_project = none;
  is_loading = false;
  storage = storage;
}

-- `currentProject?.id ?? ""`
abbrev pub project_id : Projects → String
project_id s = elim s.current_project [ none ↦ "" | some p ↦ p.id ]

abbrev pub find_project : String → List Project → Option Project
find_project id = find (λ p. str_eq p.id id)

abbrev pub saved_id : Projects → Option String
saved_id s = get_item selected_project_key s.storage

-- `savedId ? data.find((p) => p.id === savedId) : null`
unfoldable pub find_saved : Option String → List Project → Option Project
find_saved none found = none
find_saved (some id) found = if truthy id then find_project id found else none

unfoldable pub select_project : Project → Projects → Projects
select_project p s = record s {
  current_project = some p;
  storage = set_item selected_project_key p.id s.storage;
}

-- `else if (data.length > 0)`
unfoldable pub pick_first : List Project → Projects → Projects
unfolding select_project
pick_first [] s = s
pick_first (p ∷ ps) s = select_project p s

-- The choice among the projects that the server has sent.
unfoldable pub pick : List Project → Projects → Projects
unfolding find_saved pick_first
pick found s = elim (find_saved (saved_id s) found) [
  | some p ↦ record s { current_project = some p }
  | none ↦ pick_first found s
]

-- What `fetchProjects` does before it waits for the server.
unfoldable pub start_fetch : Bool → Projects → Projects
start_fetch is_authenticated s = if is_authenticated then record s { is_loading = true } else s

-- What it does with the answer; the storage is read when the answer is there.
unfoldable pub settle_fetch : Reply (List Project) → Projects → Projects
unfolding pick
settle_fetch (fail d) s = record s { is_loading = false }
settle_fetch (ok found) s = record (pick found (record s { projects = found })) {
  is_loading = false;
}

-- A fetch whose answer is the next thing that happens.
unfoldable pub fetch_projects : Bool → Reply (List Project) → Projects → Projects
unfolding start_fetch settle_fetch
fetch_projects is_authenticated reply s =
    if is_authenticated then settle_fetch reply (start_fetch is_authenticated s) else s

unfoldable pub switch_project : String → Projects → Projects
switch_project id s = elim (find_project id s.projects) [
  | none ↦ s
  | some p ↦ record s {
    current_project = some p;
    storage = set_item selected_project_key id s.storage;
  }
]

-- A rejection is handed on to the caller.
unfoldable pub create_project : Reply Project → Projects → Reply Project × Projects
unfolding select_project
create_project (fail d) s = (fail d, s)
create_project (ok p) s = (ok p, select_project p (record s { projects = s.projects ++ p ∷ [] }))
