-- ===== src/App/Steps.antt =====
-- Whatever happens, the connection is that of the project that a signed-in user has selected.
use org_log.Prelude.{
  Bool, not, ◌&&◌, ◌≡◌, ◌⊎◌, inl, inr, refl, sym, ◌∙◌, String, true, false, Option, List, [], ◌∷◌,
  arith, Bool-cases, is_some, if◌then◌else◌,
}
use org_log.Types.{LiveLogMessage}
use org_log.Browser.{held}
use org_log.Browser.Storage.{Storage}
use org_log.Auth.{Session, is_authenticated, token, logout}
use org_log.Auth.Backed.{IsBacked, logout-IsBacked}
use org_log.Auth.Guard.{screen}
use org_log.Auth.Pages.{Page, submit_login, submit_register}
use org_log.Auth.Submit.{submit_settles}
use org_log.Projects.{project_id, start_fetch, settle_fetch, switch_project, create_project}
use org_log.Projects.Selected.{
  IsSelected, start_fetch-IsSelected, settle_fetch-IsSelected, switch_project-IsSelected,
  create_project-IsSelected,
}
use org_log.Live.Cleanup.{IsQuiet, current}
use org_log.App.{
  App, shows_dashboard, Op, loads, signs_out, checks, checked, signs_in, signs_up, asks, answers,
  switches, creates, lists_late, creates_late, happens, step, steps, opened_at,
}
use org_log.App.Linked.{
  IsLinked, start_fetch-KeepsToken, settle_fetch-KeepsToken, switch_project-KeepsToken,
  create_project-KeepsToken, logout-hidden, mounted, unmounted, idle, guard-leaves,
  with_projects-IsLinked,
}
use org_log.App.Events.{happen-IsLinked, if_mounted, if_outside}
use org_log.App.Late.{late_list-IsLinked, late_project-IsLinked}
use org_log.App.Visits.{page-IsLinked, loads-IsLinked, check-IsLinked, checked-IsLinked}

module _ (ws_url : String) (parse : String → Option LiveLogMessage) where
  either :
      (b : Bool) (x a : App)
      → IsLinked ws_url a
      → (b ≡ true → IsLinked ws_url x)
      → IsLinked ws_url (if b then x else a)
  either true x a h f = f refl
  either false x a h f = h

  pub step-IsLinked :
      (o : Op ws_url parse) (a : App) → IsLinked ws_url a → IsLinked ws_url (step ws_url parse o a)
  unfolding step
  step-IsLinked loads a h = loads-IsLinked ws_url parse a h
  step-IsLinked checks a h =
      either (a.session.is_loading && not a.checking) _ a h
        (λ b. check-IsLinked ws_url parse a (ground arith) (ground arith) h)
  step-IsLinked (checked reply) a h =
      either a.checking _ a h (λ c. checked-IsLinked ws_url parse reply a c h)
  step-IsLinked (signs_in api p) a h =
      let r : Page = record p { storage = a.session.storage } in
      if_outside ws_url parse _ a h
        (λ m. page-IsLinked ws_url parse r (submit_login api r) a m h refl (submit_settles api r).2)
  step-IsLinked (signs_up api p) a h =
      let r : Page = record p { storage = a.session.storage } in
      if_outside ws_url parse _ a h (λ m.
        page-IsLinked ws_url parse r (submit_register api r) a m h refl (submit_settles api r).3)
  step-IsLinked signs_out a h = if_mounted ws_url parse _ a h (λ m.
      guard-leaves ws_url parse (logout a.session) a m h (logout-hidden a.session)
        (logout-IsBacked a.session) (inr (unfold logout in refl)) (idle ws_url parse a m h))
  step-IsLinked asks a h = if_mounted ws_url parse _ a h (λ m.
      with_projects-IsLinked ws_url parse (start_fetch (is_authenticated a.session) a.projects) a m
        h
        (start_fetch-IsSelected (is_authenticated a.session) a.projects
          (mounted ws_url parse a m h).2)
        (start_fetch-KeepsToken (is_authenticated a.session) a.projects))
  step-IsLinked (answers reply) a h = if_mounted ws_url parse _ a h (λ m.
      with_projects-IsLinked ws_url parse (settle_fetch reply a.projects) a m h
        (settle_fetch-IsSelected reply a.projects (mounted ws_url parse a m h).2)
        (settle_fetch-KeepsToken reply a.projects))
  step-IsLinked (lists_late reply) a h =
      if_outside ws_url parse _ a h (λ m. late_list-IsLinked ws_url parse reply a m h)
  step-IsLinked (creates_late reply) a h =
      if_outside ws_url parse _ a h (λ m. late_project-IsLinked ws_url parse reply a m h)
  step-IsLinked (switches id) a h = if_mounted ws_url parse _ a h (λ m.
      with_projects-IsLinked ws_url parse (switch_project id a.projects) a m h
        (switch_project-IsSelected id a.projects (mounted ws_url parse a m h).2)
        (switch_project-KeepsToken id a.projects))
  step-IsLinked (creates reply) a h = if_mounted ws_url parse _ a h (λ m.
      with_projects-IsLinked ws_url parse (create_project reply a.projects).1 a m h
        (create_project-IsSelected reply a.projects (mounted ws_url parse a m h).2)
        (create_project-KeepsToken reply a.projects))
  step-IsLinked (happens e) a h =
      if_mounted ws_url parse _ a h (λ m. happen-IsLinked ws_url parse e a m h)

  pub steps-IsLinked :
      (os : List (Op ws_url parse)) (a : App)
      → IsLinked ws_url a
      → IsLinked ws_url (steps ws_url parse os a)
  unfolding steps
  steps-IsLinked [] a h = h
  steps-IsLinked (o ∷ os) a h = steps-IsLinked os (step ws_url parse o a) (step-IsLinked o a h)

  pub opened_at-IsLinked : (storage : Storage) → IsLinked ws_url (opened_at ws_url parse storage)
  unfolding screen
  opened_at-IsLinked storage = record {
    guarded = refl;
    backed = inl refl;
    fresh = inr refl;
    awaited = inl refl;
    inside = record { silent = refl; released = refl; idle = refl; no_ref = refl };
  }

shown-is_authenticated :
    (s : Session) → shows_dashboard (screen s) ≡ true → is_authenticated s ≡ true
unfolding screen
shown-is_authenticated s h = ground arith

backed-token : (s : Session) → IsBacked s → is_authenticated s ≡ true → is_some (token s) ≡ true
backed-token s b h = ground (arith, b)

module _ (ws_url : String) (parse : String → Option LiveLogMessage) where
  -- From the first page load on, through any loads, checks, sign-ins, sign-outs, operations on the
  -- projects and events of the live logs, in any order, and with any answers of the server at any
  -- time at which the component that asked is mounted, and those about projects also while the
  -- children of the guard are not: either the guard shows the dashboard, and
  -- then somebody is signed in with a token in the storage, the selected project, if any, is the
  -- remembered one, the live logs are at it, and the connections that are open are none or exactly
  -- one, to that project; or the guard does not show it, and then no socket listens and no
  -- timeout is pending.
  pub steps_linked :
      (os : List (Op ws_url parse)) (storage : Storage)
      → let a = steps ws_url parse os (opened_at ws_url parse storage) in
        ((shows_dashboard (screen a.session) ≡ true)
          × (is_authenticated a.session ≡ true)
          × (is_some (token a.session) ≡ true)
          × IsSelected a.projects
          × (a.live.project_id ≡ project_id a.projects)
          × (held a.live.sockets ≡ current ws_url (project_id a.projects) a.live.ws_ref))
        ⊎ ((shows_dashboard (screen a.session) ≡ false) × IsQuiet a.live)
  steps_linked os storage =
      let a = steps ws_url parse os (opened_at ws_url parse storage) in
      let h = steps-IsLinked ws_url parse os _ (opened_at-IsLinked ws_url parse storage) in
      elim (Bool-cases a.is_mounted) [
        | inl m ↦
            let (tidy, at, selected, same) = mounted ws_url parse a m h in
            let shown : shows_dashboard (screen a.session) ≡ true = sym h.guarded ∙ m in
            let who = shown-is_authenticated a.session shown in
            inl (shown, who, backed-token a.session h.backed who, selected, at, tidy.holds)
        | inr m ↦ inr (sym h.guarded ∙ m, unmounted ws_url parse a m h)
      ]
