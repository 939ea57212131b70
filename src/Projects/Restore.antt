-- ===== src/Projects/Restore.antt =====
-- The selection survives a reload, and what a fetch selects.
use org_log.Prelude.{◌≡◌, refl, String, true, some, List, truthy}
use org_log.Types.{Project}
use org_log.Browser.Storage.{Storage, get_item}
use org_log.Auth.{ok}
use org_log.Projects.Selected.{saved_set}
use org_log.Projects.{
  Projects, selected_project_key, find_project, find_saved, fetch_projects, switch_project, initial,
}

-- A fetch whose list holds the stored project shows it.
pub fetch-stored :
    (id : String) (p : Project) (found : List Project) (storage : Storage)
    → truthy id ≡ true
    → get_item selected_project_key storage ≡ some id
    → find_project id found ≡ some p
    → (fetch_projects true (ok found) (initial storage)).current_project ≡ some p
unfolding fetch_projects get_item
fetch-stored id p found storage h e f = rw (e, find_saved, h, f) refl

-- After a switch to a project of the list, under an id that is not empty, that project is shown; and
-- a page that is loaded later with the same storage, and fetches the same list, shows it too.
pub fetch-switch_project :
    (id : String) (p : Project) (s : Projects)
    → truthy id ≡ true
    → find_project id s.projects ≡ some p
    → ((switch_project id s).current_project ≡ some p)
      × ((fetch_projects true
            (ok s.projects)
            (initial (switch_project id s).storage)).current_project
          ≡ some p)
unfolding switch_project
fetch-switch_project id p s h e =
    rw (e, switch_project) (refl, fetch-stored id p s.projects _ h (saved_set id s.storage) e)
