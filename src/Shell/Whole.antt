-- ===== src/Shell/Whole.antt =====
-- The layout with its sidebar and the form of a page without a project, through whatever happens.
use org_log.Prelude.{
  ◌≡◌, ◌⊎◌, ◌∙◌, inl, inr, refl, sym, subst, ap, String, Bool, true, false, ◌&&◌, Option, List, [],
  ◌∷◌, ◌++◌, if◌then◌else◌, Bool-cases,
}
use org_log.Types.{LiveLogMessage}
use org_log.Browser.{held}
use org_log.Browser.Storage.{Storage}
use org_log.Auth.Guard.{screen}
use org_log.Projects.{Projects, project_id}
use org_log.Live.Cleanup.{IsQuiet, current}
use org_log.App.{App, shows_dashboard, opened_at}
use org_log.App as App
use org_log.App.Linked.{IsLinked, mounted, unmounted}
use org_log.App.Steps.{step-IsLinked, steps-IsLinked, opened_at-IsLinked}
use org_log.Sidebar.{Sidebar}
use org_log.Sidebar as Sidebar
use org_log.Sidebar.Menus.{IsOrderly, apply-IsOrderly}
use org_log.NoProject.{NoProject, open_form, escape, start_create, type_name, finish_create}
use org_log.NoProject as NoProject
use org_log.Shell.{
  Shell, Op, in_app, in_sidebar, in_form, visits, step, steps, opened, rendered, is_due,
  is_form_due, shows_form,
}
use org_log.Shell.Within.{
  IsSingle, IsWithin, IsWhole, apply-IsSingle, fresh-IsSingle, fresh-IsWithin, again-IsWithin,
}
use org_log.Shell.Calls.{calls, step-calls, hand_over-calls, hand_over_form-calls}

module _ (ws_url : String) (parse : String → Option LiveLogMessage) where
  split-IsWhole :
      (b : Bool) (s t : Shell)
      → (b ≡ true → IsWhole ws_url s)
      → (b ≡ false → IsWhole ws_url t)
      → IsWhole ws_url (if b then s else t)
  split-IsWhole true s t h k = h refl
  split-IsWhole false s t h k = k refl

  rendered-IsWhole :
      (a : App) (s : Shell)
      → IsLinked ws_url a
      → (s.app.is_mounted ≡ true → IsOrderly s.sidebar × IsSingle s.form)
      → IsWhole ws_url (rendered a s)
  unfolding rendered
  rendered-IsWhole a s l h =
      split-IsWhole a.is_mounted _ _
        (λ m.
          let (tidy, at, selected, same) = mounted ws_url parse a m l in
          split-IsWhole s.app.is_mounted _ _
            (λ n.
              let (o, f) = h n in
              record { linked = l; within = λ _. again-IsWithin a s selected l.backed o f })
            (λ n. record { linked = l; within = λ _. fresh-IsWithin a selected l.backed }))
        (λ m. record { linked = l; within = λ n. absurd (cc (m, n)) })

  taken-IsWhole :
      (b : Bool) (x : App) (t s : Shell)
      → IsLinked ws_url (if b then x else s.app)
      → IsWhole ws_url s
      → (b ≡ true → t.app.is_mounted ≡ true → IsOrderly t.sidebar × IsSingle t.form)
      → IsWhole ws_url (if b then rendered x t else s)
  taken-IsWhole true x t s l h p = rendered-IsWhole x t l (p refl)
  taken-IsWhole false x t s l h p = h

module _ (ws_url : String) (parse : String → Option LiveLogMessage) (trim : String → String) where
  pub step-IsWhole :
      (o : Op ws_url parse trim) (s : Shell)
      → IsWhole ws_url s
      → IsWhole ws_url (step ws_url parse trim o s)
  unfolding step
  step-IsWhole (in_app o) s h =
      rendered-IsWhole ws_url parse (App.step ws_url parse o s.app) s
        (step-IsLinked ws_url parse o s.app h.linked)
        (λ m. ((h.within m).orderly, (h.within m).single))
  step-IsWhole (in_sidebar o) s h =
      taken-IsWhole ws_url parse (is_due ws_url parse trim o s.sidebar && s.app.is_mounted) _
        (record s { sidebar = Sidebar.apply trim o s.sidebar }) s
        (subst (IsLinked ws_url)
          (sym (hand_over-calls ws_url parse trim o s (λ m. (h.within m).seen)))
          (steps-IsLinked ws_url parse (calls ws_url parse trim (in_sidebar o) s) s.app h.linked))
        h (λ b m. (apply-IsOrderly trim o s.sidebar (h.within m).orderly, (h.within m).single))
  step-IsWhole (in_form o) s h =
      taken-IsWhole ws_url parse
        (is_form_due ws_url parse trim o s.form && (s.app.is_mounted && shows_form s.app)) _
        (record s { form = NoProject.apply trim o s.form }) s
        (subst (IsLinked ws_url)
          (sym (hand_over_form-calls ws_url parse trim o s (λ m. (h.within m).seen)))
          (steps-IsLinked ws_url parse (calls ws_url parse trim (in_form o) s) s.app h.linked))
        h (λ b m. ((h.within m).orderly, apply-IsSingle trim o s.form (h.within m).single))
  step-IsWhole visits s h =
      split-IsWhole ws_url parse s.app.is_mounted _ _
        (λ m.
          let w = h.within m in
          record {
            linked = h.linked;
            within = λ _. record {
              seen = record { projects = w.seen.projects; session = w.seen.session; form = refl };
              orderly = w.orderly;
              single = fresh-IsSingle s.app;
              hidden = inr refl;
            };
          })
        (λ m. h)

  steps-IsWhole :
      (os : List (Op ws_url parse trim)) (s : Shell)
      → IsWhole ws_url s
      → IsWhole ws_url (steps ws_url parse trim os s)
  unfolding steps
  steps-IsWhole [] s h = h
  steps-IsWhole (o ∷ os) s h = steps-IsWhole os (step ws_url parse trim o s) (step-IsWhole o s h)

  pub opened-IsWhole : (storage : Storage) → IsWhole ws_url (opened ws_url parse trim storage)
  opened-IsWhole storage = record {
    linked = opened_at-IsLinked ws_url parse storage;
    within = λ m. absurd (cc m);
  }

  -- The operations of the layout that a sequence of operations amounts to.
  pub trace : List (Op ws_url parse trim) → Shell → List (App.Op ws_url parse)
  trace [] s = []
  trace (o ∷ os) s = calls ws_url parse trim o s ++ trace os (step ws_url parse trim o s)

  steps-append :
      (os us : List (App.Op ws_url parse)) (a : App)
      → App.steps ws_url parse (os ++ us) a
        ≡ App.steps ws_url parse us (App.steps ws_url parse os a)
  unfolding App.steps
  steps-append [] us a = refl
  steps-append (o ∷ os) us a = steps-append os us (App.step ws_url parse o a)

  steps-trace :
      (os : List (Op ws_url parse trim)) (s : Shell)
      → IsWhole ws_url s
      → (steps ws_url parse trim os s).app ≡ App.steps ws_url parse (trace os s) s.app
  unfolding steps trace App.steps
  steps-trace [] s h = refl
  steps-trace (o ∷ os) s h =
      steps-trace os (step ws_url parse trim o s) (step-IsWhole o s h)
      ∙ ap (λ a. App.steps ws_url parse (trace os (step ws_url parse trim o s)) a)
          (step-calls ws_url parse trim o s (λ m. (h.within m).seen))
      ∙ sym (steps-append (calls ws_url parse trim o s) _ s.app)

  -- Whatever is done in the sidebar, in the form of a page without a project and around them, in any
  -- order from the first page load on, the layout behind them runs as in App: through the
  -- switches, sign-outs and settled creations that the clicks and answers amount to.
  pub opened-steps :
      (os : List (Op ws_url parse trim)) (storage : Storage)
      → let s = opened ws_url parse trim storage in
        (steps ws_url parse trim os s).app ≡ App.steps ws_url parse (trace os s) s.app
  opened-steps os storage = steps-trace os _ (opened-IsWhole storage)

  -- From the first page load on, through anything that is done in the sidebar, in the form of a page
  -- without a project and around them, in any order and with any answers: either the guard shows
  -- the dashboard, and then the sidebar and the form have the projects and the session of the
  -- providers, at most one of the sidebar's two menus is open, each of the two has at most one
  -- call of `createProject` under way, exactly while it is busy, a page with a project has the form in
  -- its first state, and the open connections are none or exactly one, to the project that the
  -- sidebar shows as the current one; or it does not, and then no socket listens and no timeout is pending.
  pub steps_whole :
      (os : List (Op ws_url parse trim)) (storage : Storage)
      → let s = steps ws_url parse trim os (opened ws_url parse trim storage) in
        ((shows_dashboard (screen s.app.session) ≡ true)
          × IsWithin s
          × (s.app.live.project_id ≡ project_id s.sidebar.projects)
          × (held s.app.live.sockets
              ≡ current ws_url (project_id s.sidebar.projects) s.app.live.ws_ref))
        ⊎ ((shows_dashboard (screen s.app.session) ≡ false) × IsQuiet s.app.live)
  steps_whole os storage =
      let s = steps ws_url parse trim os (opened ws_url parse trim storage) in
      let h = steps-IsWhole os _ (opened-IsWhole storage) in
      elim (Bool-cases s.app.is_mounted) [
        | inl m ↦
            let (tidy, at, selected, same) = mounted ws_url parse s.app m h.linked in
            let w = h.within m in
            let q : project_id s.app.projects ≡ project_id s.sidebar.projects =
              ap (λ (p : Projects). project_id p) (sym w.seen.projects) in
            inl (
              sym h.linked.guarded ∙ m,
              w,
              at ∙ q,
              tidy.holds ∙ ap (λ p. current ws_url p s.app.live.ws_ref) q,
            )
        | inr m ↦ inr (sym h.linked.guarded ∙ m, unmounted ws_url parse s.app m h.linked)
      ]
