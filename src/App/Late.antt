-- ===== src/App/Late.antt =====
-- Answers to requests of a provider of projects that was unmounted before they came.
use org_log.Prelude.{◌≡◌, ◌∙◌, ap, String, true, false, Option, none, some, List, ◌∷◌, arith}
use org_log.Types.{LiveLogMessage, Project}
use org_log.Browser.Storage.{Storage, get_item, set_item}
use org_log.Auth.{Reply, ok, Session, token}
use org_log.Auth.Guard.{screen}
use org_log.Projects.{
  Projects, selected_project_key, saved_id, find_project, find_saved, settle_fetch, create_project,
  fetch_projects, start_fetch, select_project,
}
use org_log.Projects as Projects
use org_log.Projects.Selected.{saved_set}
use org_log.Projects.Races.{settle_first, not_found}
use org_log.App.{App, with_storage, with_late, late_list, late_project}
use org_log.App.Linked.{
  IsLinked, KeepsToken, unmounted, settle_fetch-KeepsToken, create_project-KeepsToken,
}

token-kept :
    (m : Storage) (s : Session) → KeepsToken s.storage m → token (with_storage m s) ≡ token s
token-kept m s k = k

module _ (ws_url : String) (parse : String → Option LiveLogMessage) where
  -- While nobody is inside, a write that spares the token changes nothing that the invariant sees.
  with_late-IsLinked :
      (p : Projects) (a : App)
      → a.is_mounted ≡ false
      → IsLinked ws_url a
      → KeepsToken a.session.storage p.storage
      → IsLinked ws_url (with_late p a)
  unfolding with_late screen
  with_late-IsLinked p a m h k = record {
    guarded = h.guarded;
    backed = ground (arith, h.backed);
    fresh = h.fresh;
    awaited = ground (arith, h.awaited);
    inside = rw m (unmounted ws_url parse a m h);
  }

  pub late_list-IsLinked :
      (reply : Reply (List Project)) (a : App)
      → a.is_mounted ≡ false
      → IsLinked ws_url a
      → IsLinked ws_url (late_list reply a)
  unfolding late_list
  late_list-IsLinked reply a m h =
      with_late-IsLinked (settle_fetch reply (Projects.initial a.session.storage)) a m h
        (settle_fetch-KeepsToken reply (Projects.initial a.session.storage))

  pub late_project-IsLinked :
      (reply : Reply Project) (a : App)
      → a.is_mounted ≡ false
      → IsLinked ws_url a
      → IsLinked ws_url (late_project reply a)
  unfolding late_project
  late_project-IsLinked reply a m h =
      with_late-IsLinked (create_project reply (Projects.initial a.session.storage)).1 a m h
        (create_project-KeepsToken reply (Projects.initial a.session.storage))

-- An answer that does not hold the remembered project makes its first one remembered and shown.
missed :
    (id : String) (q : Project) (qs : List Project) (s : Projects)
    → saved_id s ≡ some id
    → find_project id (q ∷ qs) ≡ none
    → settle_fetch (ok (q ∷ qs)) s
      ≡ record (select_project q (record s { projects = q ∷ qs })) { is_loading = false }
missed id q qs s h e =
    settle_first q qs s (ap (λ o. find_saved o (q ∷ qs)) h ∙ not_found id (q ∷ qs) e)

-- A page load with a remembered project that the list does not hold shows the first of the list.
fetched :
    (id : String) (r : Project) (rs : List Project) (m : Storage)
    → get_item selected_project_key m ≡ some id
    → find_project id (r ∷ rs) ≡ none
    → (fetch_projects true (ok (r ∷ rs)) (Projects.initial m)).current_project ≡ some r
unfolding fetch_projects start_fetch select_project
fetched id r rs m h e =
    ap (λ (s : Projects). s.current_project)
      (missed id r rs (record (Projects.initial m) { is_loading = true }) h e)

-- A list that was asked for by a provider that is gone, and that arrives while another provider shows a
-- remembered project that the list does not hold: that project stays on the screen, but the first of
-- the late list is remembered in its place, so that a page that is loaded next, with a list that
-- does not hold that one, shows the first of its list, whichever it is.
pub late_list_forgets :
    (p q r : Project) (qs rs : List Project) (a : App)
    → a.projects.current_project ≡ some p
    → get_item selected_project_key a.session.storage ≡ some p.id
    → find_project p.id (q ∷ qs) ≡ none
    → find_project q.id (r ∷ rs) ≡ none
    → let b = late_list (ok (q ∷ qs)) a in
      (b.projects.current_project ≡ some p)
      × (saved_id b.projects ≡ some q.id)
      × ((fetch_projects true (ok (r ∷ rs)) (Projects.initial b.session.storage)).current_project
          ≡ some r)
unfolding late_list with_late select_project
late_list_forgets p q r qs rs a shown saved missing other =
    let m = a.session.storage in
    let late : (settle_fetch (ok (q ∷ qs)) (Projects.initial m)).storage
        ≡ set_item selected_project_key q.id m =
      ap (λ (s : Projects). s.storage) (missed p.id q qs (Projects.initial m) saved missing) in
    rw late (
      shown,
      saved_set q.id m,
      fetched q.id r rs (set_item selected_project_key q.id m) (saved_set q.id m) other,
    )
