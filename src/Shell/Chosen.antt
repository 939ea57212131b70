-- ===== src/Shell/Chosen.antt =====
-- From a click in the sidebar to the connection: a project that is picked or created.
use org_log.Prelude.{
  ◌≡◌, ◌≢◌, ◌∙◌, ◌⊎◌, inl, inr, refl, sym, subst, ap, String, true, Option, some, Has, first,
  is_some, truthy, arith,
}
use org_log.Types.{LiveLogMessage, Project}
use org_log.Auth.{ok}
use org_log.Projects.{
  Projects, project_id, find_project, saved_id, switch_project, create_project, select_project,
}
use org_log.Projects.Selected.{find_project_sound, saved_set, Has-last}
use org_log.Live.Switch.{Connects, render-Connects}
use org_log.App.{App, with_projects}
use org_log.App as App
use org_log.App.Linked.{IsLinked, mounted, inside-IsTidy}
use org_log.Sidebar.{picks_project}
use org_log.Sidebar as Sidebar
use org_log.NoProject as NoProject
use org_log.Shell.{Shell, Op, in_sidebar, in_form, shows_form, step}
use org_log.Shell.Calls.{calls, step-calls}
use org_log.Shell.Within.{IsWhole}
use org_log.Shell.Whole.{step-IsWhole}

-- The project is shown, remembered and one of the list.
abbrev pub IsChosen : Project → Projects → Type 0
IsChosen p s = (s.current_project ≡ some p) × (saved_id s ≡ some p.id) × Has p s.projects

switch_project-IsChosen :
    (p : Project) (s : Projects)
    → find_project p.id s.projects ≡ some p
    → IsChosen p (switch_project p.id s)
unfolding switch_project
switch_project-IsChosen p s e =
    rw (e, switch_project)
      (refl, saved_set p.id s.storage, (find_project_sound p.id s.projects p e).0)

create_project-IsChosen : (p : Project) (s : Projects) → IsChosen p (create_project (ok p) s).1
unfolding create_project select_project
create_project-IsChosen p s = (refl, saved_set p.id s.storage, Has-last p s.projects)

module _ (ws_url : String) (parse : String → Option LiveLogMessage) where
  with_projects-Connects :
      (p : Project) (q : Projects) (a : App)
      → a.is_mounted ≡ true
      → IsLinked ws_url a
      → a.live.is_streaming ≡ true
      → truthy p.id ≡ true
      → p.id ≢ project_id a.projects
      → q.current_project ≡ some p
      → Connects ws_url p.id (with_projects ws_url parse q a).live
  unfolding with_projects
  with_projects-Connects p q a m h b t n e =
      let (tidy, at, old, same) = mounted ws_url parse a m h in
      let id : project_id q ≡ p.id = rw e refl in
      rw id (
        render-Connects ws_url p.id a.live (inside-IsTidy ws_url parse a m h) b t (λ k. n (k ∙ at)))

module _ (ws_url : String) (parse : String → Option LiveLogMessage) (trim : String → String) where
  -- An operation that leaves the providers with other projects.
  settled :
      (o : Op ws_url parse trim) (p : Project) (q : Projects) (s : Shell)
      → IsWhole ws_url s
      → s.app.is_mounted ≡ true
      → s.app.live.is_streaming ≡ true
      → truthy p.id ≡ true
      → p.id ≢ project_id s.app.projects
      → IsChosen p q
      → (step ws_url parse trim o s).app ≡ with_projects ws_url parse q s.app
      → let t = step ws_url parse trim o s in
        IsChosen p t.sidebar.projects × Connects ws_url p.id t.app.live
  settled o p q s h m b f n c e =
      let t = step ws_url parse trim o s in
      let inside : t.app.is_mounted ≡ true =
        ap (λ (a : App). a.is_mounted) e ∙ (unfold with_projects in m) in
      let shown : t.sidebar.projects ≡ q =
        ((step-IsWhole ws_url parse trim o s h).within inside).seen.projects
        ∙ ap (λ (a : App). a.projects) e
        ∙ (unfold with_projects in refl) in
      (
        subst (IsChosen p) (sym shown) c,
        subst (λ (a : App). Connects ws_url p.id a.live) (sym e)
            (with_projects-Connects ws_url parse p q s.app m h.linked b f n c.0),
      )

  -- An operation leaves the layout where its call does.
  amounts :
      (o u : Op ws_url parse trim) (s : Shell)
      → IsWhole ws_url s
      → (a : App) → o ≡ u
      → App.steps ws_url parse (calls ws_url parse trim u s) s.app ≡ a
      → (step ws_url parse trim o s).app ≡ a
  amounts o u s h a e k =
      ap (λ v. (step ws_url parse trim v s).app) e
      ∙ step-calls ws_url parse trim u s (λ m. (h.within m).seen)
      ∙ k

  -- While the dashboard is shown and the live logs stream, for a project that is not the current one: a
  -- click on its entry of the list, or its answer to the creation that the sidebar waits for, or that
  -- the form of a page without a project waits for, makes the sidebar show it as the current one, one
  -- of the list and the remembered one, and then exactly one connection listens and is open, which
  -- is the current one, to that project, and in the making.
  pub step-IsChosen :
      (o : Op ws_url parse trim) (p : Project) (s : Shell)
      → IsWhole ws_url s
      → s.app.is_mounted ≡ true
      → s.app.live.is_streaming ≡ true
      → truthy p.id ≡ true
      → p.id ≢ project_id s.app.projects
      → ((o ≡ in_sidebar (picks_project p.id))
          × (find_project p.id s.app.projects.projects ≡ some p))
        ⊎ ((o ≡ in_sidebar (Sidebar.answers (ok p))) × (is_some (first s.sidebar.requests) ≡ true))
        ⊎ ((o ≡ in_form (NoProject.answers (ok p)))
            × (shows_form s.app ≡ true)
            × (is_some (first s.form.requests) ≡ true))
      → let t = step ws_url parse trim o s in
        IsChosen p t.sidebar.projects × Connects ws_url p.id t.app.live
  unfolding calls App.steps App.step
  step-IsChosen o p s h m b f n (inl (e, found)) =
      let q = switch_project p.id s.app.projects in
      settled o p q s h m b f n (switch_project-IsChosen p s.app.projects found)
        (amounts o (in_sidebar (picks_project p.id)) s h _ e (ground arith))
  step-IsChosen o p s h m b f n (inr (inl (e, waits))) =
      let q = (create_project (ok p) s.app.projects).1 in
      settled o p q s h m b f n (create_project-IsChosen p s.app.projects)
        (amounts o (in_sidebar (Sidebar.answers (ok p))) s h _ e (ground arith))
  step-IsChosen o p s h m b f n (inr (inr (e, shown, waits))) =
      let q = (create_project (ok p) s.app.projects).1 in
      settled o p q s h m b f n (create_project-IsChosen p s.app.projects)
        (amounts o (in_form (NoProject.answers (ok p))) s h _ e (ground arith))
