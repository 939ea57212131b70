-- ===== src/Shell/Calls.antt =====
-- What the sidebar and the form do to the contexts is what the layout's own operations do.
use org_log.Prelude.{
  ◌≡◌, ◌∙◌, refl, inl, inr, ap, String, Bool, true, false, ◌&&◌, Option, List, [], ◌∷◌, first,
  is_some, if◌then◌else◌, arith, Bool-cases,
}
use org_log.Types.{LiveLogMessage, Project}
use org_log.Auth.{Reply, ok, fail, logout}
use org_log.Projects.{Projects, switch_project, create_project}
use org_log.App.{App, guard, with_projects}
use org_log.App as App
use org_log.Sidebar.{
  Sidebar, picks_project, signs_out, pick_project, sign_out, finish_create, created,
}
use org_log.Sidebar as Sidebar
use org_log.NoProject.{NoProject}
use org_log.NoProject as NoProject
use org_log.Shell.{
  Shell, Op, in_app, in_sidebar, in_form, visits, step, rendered, hand_over, hand_over_form, is_due,
  is_form_due, shows_form,
}

pub rendered-app : (a : App) (s : Shell) → (rendered a s).app ≡ a
unfolding rendered
rendered-app a s = ground arith

-- The answer to a call that waits reaches the projects.
finish-projects :
    (reply : Reply Project) (s : Sidebar)
    → is_some (first s.requests) ≡ true
    → (finish_create reply s).projects ≡ (create_project reply s.projects).1
unfolding finish_create created
finish-projects (ok p) s h = ground arith
finish-projects (fail d) s h = ground arith

finish_form-projects :
    (reply : Reply Project) (f : NoProject)
    → is_some (first f.requests) ≡ true
    → (NoProject.finish_create reply f).projects ≡ (create_project reply f.projects).1
unfolding NoProject.finish_create
finish_form-projects reply f h = ground arith

-- The children see what the contexts hold.
pub record IsSeen (s : Shell) : Type 0 where
  pub projects : s.sidebar.projects ≡ s.app.projects
  pub session : s.sidebar.session ≡ s.app.session
  pub form : s.form.projects ≡ s.app.projects

module _ (ws_url : String) (parse : String → Option LiveLogMessage) (trim : String → String) where
  -- The operation of the layout that an operation is, if any.
  unfoldable pub calls : Op ws_url parse trim → Shell → List (App.Op ws_url parse)
  calls (in_app o) s = o ∷ []
  calls (in_sidebar (picks_project id)) s = App.switches id ∷ []
  calls (in_sidebar signs_out) s = App.signs_out ∷ []
  calls (in_sidebar (Sidebar.answers reply)) s =
      if is_some (first s.sidebar.requests) && s.app.is_mounted then App.creates reply ∷ [] else []
  calls (in_form (NoProject.answers reply)) s =
      if is_some (first s.form.requests) && (s.app.is_mounted && shows_form s.app)
      then App.creates reply ∷ []
      else []
  calls _ s = []

  same : (b : Bool) (a : App) → (if b then a else a) ≡ a
  same b a = ground arith

  when : (b : Bool) (a c d : App) → (b ≡ true → a ≡ c) → (if b then a else d) ≡ (if b then c else d)
  when true a c d h = h refl
  when false a c d h = refl

  -- A creation that is answered, if one waits.
  answered :
      (b : Bool) (a d : App) (reply : Reply Project)
      → (b ≡ true → a ≡ App.step ws_url parse (App.creates reply) d)
      → (if b then a else d) ≡ App.steps ws_url parse (if b then App.creates reply ∷ [] else []) d
  unfolding App.steps
  answered true a d reply h = h refl
  answered false a d reply h = refl

  -- A project that is created while the children are mounted.
  creates :
      (reply : Reply Project) (p : Projects) (a : App)
      → a.is_mounted ≡ true
      → p ≡ (create_project reply a.projects).1
      → with_projects ws_url parse p a ≡ App.step ws_url parse (App.creates reply) a
  unfolding App.step
  creates reply p a m e = ap (λ q. with_projects ws_url parse q a) e ∙ ground arith

  in_sidebar-app :
      (o : Sidebar.Op trim) (s : Shell)
      → (step ws_url parse trim (in_sidebar o) s).app ≡ (
          if is_due ws_url parse trim o s.sidebar && s.app.is_mounted
          then hand_over ws_url parse trim o (Sidebar.apply trim o s.sidebar) s.app
          else s.app)
  unfolding step
  in_sidebar-app o s =
      elim (Bool-cases (is_due ws_url parse trim o s.sidebar && s.app.is_mounted)) [
        | inl e ↦ rw e (
            rendered-app (hand_over ws_url parse trim o (Sidebar.apply trim o s.sidebar) s.app)
              (record s { sidebar = Sidebar.apply trim o s.sidebar }))
        | inr e ↦ rw e refl
      ]

  pub hand_over-calls :
      (o : Sidebar.Op trim) (s : Shell)
      → (s.app.is_mounted ≡ true → IsSeen s)
      → (if is_due ws_url parse trim o s.sidebar && s.app.is_mounted
          then hand_over ws_url parse trim o (Sidebar.apply trim o s.sidebar) s.app
          else s.app)
        ≡ App.steps ws_url parse (calls (in_sidebar o) s) s.app
  unfolding calls App.steps App.step hand_over Sidebar.apply pick_project sign_out finish_create
      created
  hand_over-calls (picks_project id) s h =
      when s.app.is_mounted _ _ s.app
        (λ m. ap (λ p. with_projects ws_url parse (switch_project id p) s.app) (h m).projects)
  hand_over-calls signs_out s h =
      when s.app.is_mounted _ _ s.app
        (λ m. ap (λ t. guard ws_url parse (logout t) s.app) (h m).session)
  hand_over-calls (Sidebar.answers reply) s h =
      answered (is_some (first s.sidebar.requests) && s.app.is_mounted) _ s.app reply (λ e.
        let w : is_some (first s.sidebar.requests) ≡ true = ground arith in
        let m : s.app.is_mounted ≡ true = ground arith in
        creates reply _ s.app m
          (finish-projects reply s.sidebar w ∙ ap (λ p. (create_project reply p).1) (h m).projects))
  hand_over-calls Sidebar.toggles s h = same s.app.is_mounted s.app
  hand_over-calls Sidebar.clicks_project_menu s h = same s.app.is_mounted s.app
  hand_over-calls Sidebar.clicks_user_menu s h = same s.app.is_mounted s.app
  hand_over-calls Sidebar.shows_form s h = same s.app.is_mounted s.app
  hand_over-calls Sidebar.enters s h = same s.app.is_mounted s.app
  hand_over-calls Sidebar.escapes s h = same s.app.is_mounted s.app
  hand_over-calls (Sidebar.types_name v) s h = same s.app.is_mounted s.app

  in_form-app :
      (o : NoProject.Op trim) (s : Shell)
      → (step ws_url parse trim (in_form o) s).app ≡ (
          if is_form_due ws_url parse trim o s.form && (s.app.is_mounted && shows_form s.app)
          then hand_over_form ws_url parse trim o (NoProject.apply trim o s.form) s.app
          else s.app)
  unfolding step
  in_form-app o s =
      elim (Bool-cases
        (is_form_due ws_url parse trim o s.form && (s.app.is_mounted && shows_form s.app))) [
          | inl e ↦ rw e (
              rendered-app
                (hand_over_form ws_url parse trim o (NoProject.apply trim o s.form) s.app)
                (record s { form = NoProject.apply trim o s.form }))
          | inr e ↦ rw e refl
        ]

  pub hand_over_form-calls :
      (o : NoProject.Op trim) (s : Shell)
      → (s.app.is_mounted ≡ true → IsSeen s)
      → (if is_form_due ws_url parse trim o s.form && (s.app.is_mounted && shows_form s.app)
          then hand_over_form ws_url parse trim o (NoProject.apply trim o s.form) s.app
          else s.app)
        ≡ App.steps ws_url parse (calls (in_form o) s) s.app
  unfolding calls App.steps hand_over_form NoProject.apply
  hand_over_form-calls (NoProject.answers reply) s h =
      answered (is_some (first s.form.requests) && (s.app.is_mounted && shows_form s.app)) _ s.app
        reply
        (λ e.
          let w : is_some (first s.form.requests) ≡ true = ground arith in
          let m : s.app.is_mounted ≡ true = ground arith in
          creates reply _ s.app m
            (finish_form-projects reply s.form w ∙ ap (λ p. (create_project reply p).1) (h m).form))
  hand_over_form-calls NoProject.opens_form s h = same _ s.app
  hand_over_form-calls NoProject.escapes s h = same _ s.app
  hand_over_form-calls NoProject.enters s h = same _ s.app
  hand_over_form-calls (NoProject.types_name v) s h = same _ s.app

  pub step-calls :
      (o : Op ws_url parse trim) (s : Shell)
      → (s.app.is_mounted ≡ true → IsSeen s)
      → (step ws_url parse trim o s).app ≡ App.steps ws_url parse (calls o s) s.app
  unfolding step calls App.steps
  step-calls (in_app o) s h = rendered-app (App.step ws_url parse o s.app) s
  step-calls (in_sidebar o) s h = in_sidebar-app o s ∙ hand_over-calls o s h
  step-calls (in_form o) s h = in_form-app o s ∙ hand_over_form-calls o s h
  step-calls visits s h = ground arith
