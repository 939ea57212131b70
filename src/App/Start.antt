-- ===== src/App/Start.antt =====
-- A page load by somebody who was signed in: from the first render to the open connection.
use org_log.Prelude.{
  ◌≡◌, ◌⊎◌, inl, inr, subst, first, refl, String, true, Option, none, some, List, [], ◌∷◌, truthy,
  arith,
}
use org_log.Types.{LiveLogMessage, User, Project}
use org_log.Browser.{held, listening}
use org_log.Browser.Storage.{Storage, get_item}
use org_log.Config.{auth_token_key}
use org_log.Auth.{ok, start_check, settle_check, initial}
use org_log.Auth.Guard.{Screen, screen}
use org_log.Projects.{
  Projects, project_id, selected_project_key, saved_id, pick_first, find_saved, settle_fetch,
  start_fetch, pick,
}
use org_log.Projects as Projects
use org_log.Projects.Selected.{IsSelected, IsSelectedAt, settle_fetch-IsSelected}
use org_log.Live.{new_socket, mount, render, run_effect, connect, open_socket, cleanup_ws}
use org_log.App.{
  enter, guard, with_projects, checks, checked, check, asks, answers, step, steps, opened_at,
}

-- A stored token that is not empty is asked about.
started :
    (storage : Storage) (t : String)
    → get_item auth_token_key storage ≡ some t
    → truthy t ≡ true
    → start_check (initial storage) ≡ (true, initial storage)
unfolding start_check
started storage t e f = rw (e, start_check, f) refl

-- The project that the page should open: the remembered one if the list holds it, else the first.
abbrev pub Opens : Option String → List Project → Project → Type 0
Opens saved found p =
    (find_saved saved found ≡ some p) ⊎ ((find_saved saved found ≡ none) × (first found ≡ some p))

-- The project that the first answer leaves.
picked :
    (found : List Project) (p : Project) (s : Projects)
    → Opens (saved_id s) found p
    → (settle_fetch (ok found) s).current_project ≡ some p
unfolding settle_fetch pick pick_first
picked found p s (inl h) = rw (h, pick) refl
picked [] p s (inr (h, e)) = absurd (cc)
picked (q ∷ found) p s (inr (h, e)) = rw (h, pick) e

remembered :
    (found : List Project) (p : Project) (s : Projects)
    → IsSelected s
    → Opens (saved_id s) found p
    → saved_id (settle_fetch (ok found) s) ≡ some p.id
remembered found p s i h =
    let t = settle_fetch (ok found) s in
    (subst (λ o. IsSelectedAt o t.projects (saved_id t)) (picked found p s h)
      (settle_fetch-IsSelected (ok found) s i)).0

module _ (ws_url : String) (parse : String → Option LiveLogMessage) where
  -- The first render with a project connects.
  connects :
      (q : String)
      → truthy q ≡ true
      → let s = render ws_url q (mount ws_url "") in
        (listening s.sockets ≡ new_socket ws_url 1 q ∷ [])
        × (held s.sockets ≡ new_socket ws_url 1 q ∷ [])
        × (s.ws_ref ≡ some 1)
        × (s.is_connecting ≡ true)
  unfolding render mount run_effect connect open_socket cleanup_ws
  connects q h = ground arith

  -- A page is loaded with a stored token that is not empty; the server answers with a user, and its
  -- list of projects holds the remembered project, or does not and has a first one. Then, once both have
  -- been answered, the dashboard is shown, that project is the current one and the remembered one,
  -- and exactly one connection, to that project, is in the making.
  pub start_up :
      (storage : Storage) (t : String) (u : User) (found : List Project) (p : Project)
      → get_item auth_token_key storage ≡ some t
      → truthy t ≡ true
      → Opens (get_item selected_project_key storage) found p
      → truthy p.id ≡ true
      → let a =
          steps ws_url parse
            (checks ∷ checked (ok u) ∷ asks ∷ answers (ok found) ∷ [])
            (opened_at ws_url parse storage) in
        (screen a.session ≡ Screen.dashboard)
        × (a.projects.current_project ≡ some p)
        × (saved_id a.projects ≡ some p.id)
        × (listening a.live.sockets ≡ new_socket ws_url 1 p.id ∷ [])
        × (held a.live.sockets ≡ new_socket ws_url 1 p.id ∷ [])
        × (a.live.is_connecting ≡ true)
  unfolding steps step check guard enter settle_check with_projects screen start_fetch render mount
      run_effect
  start_up storage t u found p e f h k =
      let asked : Projects = record (Projects.initial storage) { is_loading = true } in
      let (listens, holds, ref, connecting) = connects p.id k in
      let shown = picked found p asked h in
      let kept = remembered found p asked tt h in
      rw (started storage t e f)
        (refl, shown, kept, rw shown listens, rw shown holds, rw shown connecting)
