-- ===== src/NoProject.antt =====
-- frontend/src/components/layout/no-project.tsx: the form that a page shows while no project is
-- selected. `trim` is a parameter; `requests` are the names in the calls of `createProject` that have
-- not settled, the last first.
use org_log.Prelude.{
  ◌≡◌, String, Bool, true, false, not, ◌||◌, List, [], ◌∷◌, truthy, arith, if◌then◌else◌,
}
use org_log.Types.{Project}
use org_log.Auth.{Reply}
use org_log.Projects.{Projects, create_project}

pub record NoProject : Type 0 where
  pub name : String
  pub creating : Bool
  pub show_form : Bool
  pub requests : List String
  pub projects : Projects

unfoldable pub open_form : NoProject → NoProject
open_form s = record s { show_form = true }

unfoldable pub type_name : String → NoProject → NoProject
type_name v s = record s { name = v }

unfoldable pub escape : NoProject → NoProject
escape s = record s { show_form = false; name = "" }

-- `handleCreate` behind its `await`.
unfoldable pub finish_create : Reply Project → NoProject → NoProject
finish_create reply s = elim s.requests [
  | [] ↦ s
  | name ∷ names ↦ record s {
    requests = names;
    projects = (create_project reply s.projects).1;
    creating = false;
  }
]

module _ (trim : String → String) where
  -- `handleCreate` up to its `await`.
  unfoldable pub start_create : NoProject → NoProject
  start_create s =
      if not (truthy (trim s.name)) || s.creating
      then s
      else record s { creating = true; requests = trim s.name ∷ s.requests }

  pub data Op : Type 0 where
    opens_form escapes enters : Op
    types_name : String → Op
    answers : Reply Project → Op

  unfoldable pub apply : Op → NoProject → NoProject
  apply opens_form s = open_form s
  apply escapes s = escape s
  apply enters s = start_create s
  apply (types_name v) s = type_name v s
  apply (answers reply) s = finish_create reply s

module _ (trim : String → String) where
  -- A creation that begins where none is under way, with a name that `trim` does not empty, and
  -- settles: it asks for that name; while it waits a second click starts none; and the answer of the
  -- server leaves the form idle, with the projects as `createProject` leaves them.
  pub create_once :
      (reply : Reply Project) (s : NoProject)
      → s.requests ≡ []
      → s.creating ≡ false
      → truthy (trim s.name) ≡ true
      → let t = start_create trim s in
        (start_create trim t ≡ t)
        × (t.requests ≡ trim s.name ∷ [])
        × ((finish_create reply t).creating ≡ false)
        × ((finish_create reply t).requests ≡ [])
        × ((finish_create reply t).projects ≡ (create_project reply s.projects).1)
  unfolding start_create finish_create
  create_once reply s idle free named = ground arith
