-- ===== src/App/Events.antt =====
-- The events of the live logs keep the invariant of the layout.
use org_log.Prelude.{
  ◌≡◌, inl, inr, refl, sym, subst, ◌∙◌, String, true, false, Option, Bool-cases, if◌then◌else◌,
}
use org_log.Types.{LiveLogMessage}
use org_log.Projects.{project_id}
use org_log.Live.{LiveLogs}
use org_log.Live.Cleanup.{IsTidy}
use org_log.Live.Frame.{handle-project_id, project_after}
use org_log.Live.Single.{handle-IsTidy}
use org_log.Live.Events.{
  Event, opened, received, failed, closed, timed_out, user_reconnects, user_clears, user_streams,
  rendered, handle,
}
use org_log.App.{App, happen}
use org_log.App.Linked.{IsLinked, mounted, inside-IsTidy}

module _ (ws_url : String) (parse : String → Option LiveLogMessage) where
  -- Every event leaves the live logs at the current project.
  handle-inside :
      (e : Event) (q : String) (s : LiveLogs)
      → project_after e s ≡ q
      → IsTidy ws_url s.project_id s
      → IsTidy ws_url q (handle ws_url parse e s) × ((handle ws_url parse e s).project_id ≡ q)
  handle-inside e q s h t =
      let same : (handle ws_url parse e s).project_id ≡ q =
        handle-project_id ws_url parse e s ∙ h in
      (
        subst (λ p. IsTidy ws_url p (handle ws_url parse e s)) same
            (handle-IsTidy ws_url parse e s t),
        same,
      )

  live-IsLinked :
      (t : LiveLogs) (a : App)
      → a.is_mounted ≡ true
      → IsLinked ws_url a
      → IsTidy ws_url (project_id a.projects) t × (t.project_id ≡ project_id a.projects)
      → IsLinked ws_url (record a { live = t })
  live-IsLinked t a m h n =
      let (tidy, at, old, same) = mounted ws_url parse a m h in
      record {
        guarded = h.guarded;
        backed = h.backed;
        fresh = h.fresh;
        awaited = h.awaited;
        inside = rw m (n.0, n.1, old, same);
      }

  kept :
      (e : Event) (a : App)
      → a.is_mounted ≡ true
      → IsLinked ws_url a
      → project_after e a.live ≡ a.live.project_id
      → IsLinked ws_url (record a { live = handle ws_url parse e a.live })
  kept e a m h same = live-IsLinked _ a m h (
      handle-inside e (project_id a.projects) a.live (same ∙ (mounted ws_url parse a m h).1)
        (inside-IsTidy ws_url parse a m h))

  pub happen-IsLinked :
      (e : Event) (a : App)
      → a.is_mounted ≡ true
      → IsLinked ws_url a
      → IsLinked ws_url (happen ws_url parse e a)
  unfolding happen
  happen-IsLinked (opened k) a m h = kept (opened k) a m h refl
  happen-IsLinked (received k raw) a m h = kept (received k raw) a m h refl
  happen-IsLinked (failed k) a m h = kept (failed k) a m h refl
  happen-IsLinked (closed k) a m h = kept (closed k) a m h refl
  happen-IsLinked (timed_out t) a m h = kept (timed_out t) a m h refl
  happen-IsLinked user_reconnects a m h = kept user_reconnects a m h refl
  happen-IsLinked user_clears a m h = kept user_clears a m h refl
  happen-IsLinked (user_streams b) a m h = kept (user_streams b) a m h refl
  happen-IsLinked (rendered q) a m h = live-IsLinked _ a m h (
      handle-inside (rendered (project_id a.projects)) (project_id a.projects) a.live refl
        (inside-IsTidy ws_url parse a m h))

  pub if_mounted :
      (x a : App)
      → IsLinked ws_url a
      → (a.is_mounted ≡ true → IsLinked ws_url x)
      → IsLinked ws_url (if a.is_mounted then x else a)
  if_mounted x a h f = elim (Bool-cases a.is_mounted) [
    | inl m ↦ subst (λ b. IsLinked ws_url (if b then x else a)) (sym m) (f m)
    | inr m ↦ subst (λ b. IsLinked ws_url (if b then x else a)) (sym m) h
  ]

  pub if_outside :
      (x a : App)
      → IsLinked ws_url a
      → (a.is_mounted ≡ false → IsLinked ws_url x)
      → IsLinked ws_url (if a.is_mounted then a else x)
  if_outside x a h f = elim (Bool-cases a.is_mounted) [
    | inl m ↦ subst (λ b. IsLinked ws_url (if b then a else x)) (sym m) h
    | inr m ↦ subst (λ b. IsLinked ws_url (if b then a else x)) (sym m) (f m)
  ]
