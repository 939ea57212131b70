-- ===== src/Live/Link/Refinement.antt =====
-- The handlers of the provider do to the link what its events do.
use org_log.Prelude.{
  ℕ, ◌≡◌, ◌⊎◌, inl, inr, refl, String, Bool, true, false, Option, none, some, List, [], ◌∷◌, find,
  ◌==◌, ==_self, ==_iff, arith, Option-cases, Bool-cases, ap, ◌∙◌,
}
use org_log.Types.{LiveLogMessage}
use org_log.Browser.{Socket, Timer, clear_timeout, listening}
use org_log.Live.{
  LiveLogs, cleanup_ws, connect, on_open, on_message, on_error, on_close, on_timeout, reconnect,
  clear_messages, set_streaming, pause, run_effect, render, mount, new_socket, initial,
}
use org_log.Live.Cleanup.{
  IsTidy, IsWaiting, IsQuiet-IsTidy, cleanup_ws-IsQuiet, cleanup_ws-Keeps, cleanup_ws-next_id,
}
use org_log.Live.Tidy.{IsTidy-congr, fired, waiting-some}
use org_log.Live.Single.{initial-IsTidy, handle-IsTidy, mount-IsTidy}
use org_log.Live.Events.{
  Event, opened, received, failed, closed, timed_out, user_reconnects, user_clears, user_streams,
  rendered, deliver, while_open, fire, handle, run,
}
use org_log.Live.Link.{is_up, is_waiting, phase_of, link_of, raise, advance, advance_all, started}

-- A timeout that is found is the only one, and the socket is gone.
found-waiting :
    (project : String) (ws ref : Option ℕ) (t : ℕ) (u : Timer) (ts : List Timer)
    → IsWaiting project ws ref ts
    → find (λ v. v.id == t) ts ≡ some u
    → (ts ≡ u ∷ []) × (ws ≡ none) × (u.project_id ≡ project) × (clear_timeout u.id ts ≡ [])
found-waiting project ws ref t u [] h e = cc
found-waiting project ws ref t u (v ∷ []) h e = ground (arith, ==_self v.id)
found-waiting project ws ref t u (v ∷ w ∷ ts) h e = absurd h

down : (k : ℕ) (ts : List Timer) → is_up k (phase_of none ts) ≡ false
down k [] = refl
down k (t ∷ ts) = refl

-- A timeout that is not found is not the one that is waited for.
unawaited :
    (project : String) (ws ref : Option ℕ) (t : ℕ) (ts : List Timer)
    → IsWaiting project ws ref ts
    → find (λ v. v.id == t) ts ≡ none
    → is_waiting t (phase_of ws ts) ≡ false
unawaited project (some k) ref t ts h e = refl
unawaited project none ref t [] h e = refl
unawaited project none ref t (v ∷ []) h e = ground arith
unawaited project none ref t (v ∷ w ∷ ts) h e = absurd h

awaited :
    (project : String) (t : ℕ) (u : Timer) (ts : List Timer)
    → find (λ v. v.id == t) ts ≡ some u
    → (u.id == t) ≡ true
awaited project t u [] e = absurd (cc e)
awaited project t u (v ∷ ts) e = ground (arith, awaited project t u ts)

module _ (ws_url : String) where
  connect-link :
      (s : LiveLogs)
      → IsTidy ws_url s.project_id s
      → link_of (connect ws_url s.project_id s) ≡ raise (link_of s) (link_of s)
  unfolding connect
  connect-link s t =
      ground (
        arith,
        cleanup_ws-Keeps s,
        cleanup_ws-next_id s,
        cleanup_ws-IsQuiet ws_url s.project_id s t,
      )

  delivered :
      (k : ℕ) (handler : Socket → LiveLogs → LiveLogs) (s : LiveLogs) (c : Socket)
      → find (λ v. v.id == k) (listening s.sockets) ≡ some c
      → deliver k handler s ≡ handler c s
  unfolding deliver
  delivered k handler s c e = rw (e, deliver) refl

  undelivered :
      (k : ℕ) (handler : Socket → LiveLogs → LiveLogs) (s : LiveLogs)
      → find (λ v. v.id == k) (listening s.sockets) ≡ none
      → deliver k handler s ≡ s
  unfolding deliver
  undelivered k handler s e = rw (e, deliver) refl

  -- An event of a socket arrives at the current one or nowhere.
  deliver-link :
      (k : ℕ) (handler : Socket → LiveLogs → LiveLogs) (s : LiveLogs)
      → IsTidy ws_url s.project_id s
      → ((is_up k (link_of s).phase ≡ false) × (deliver k handler s ≡ s))
        ⊎ ((is_up k (link_of s).phase ≡ true)
            × (s.ws_ref ≡ some k)
            × (deliver k handler s ≡ handler (new_socket ws_url k s.project_id) s))
  unfolding deliver
  deliver-link k handler s t = elim (Option-cases s.ws_ref) [
    | inl e ↦ inl (rw e (down k s.timers), undelivered k handler s (ground (arith, t.listens)))
    | inr (j, e) ↦ elim (Bool-cases (j == k)) [
      | inl f ↦
          let same : s.ws_ref ≡ some k = e ∙ ap some ((==_iff j k).0 f) in
          inr (
            rw e f,
            same,
            delivered k handler s (new_socket ws_url k s.project_id)
                (ground (arith, t.listens, same, ==_self k)),
          )
      | inr f ↦ inl (rw e f, undelivered k handler s (ground (arith, t.listens)))
    ]
  ]

  opened-advance :
      (k : ℕ) (s : LiveLogs)
      → IsTidy ws_url s.project_id s
      → link_of (deliver k (while_open on_open) s) ≡ advance (opened k) (link_of s)
  unfolding while_open on_open
  opened-advance k s t = elim (deliver-link k (while_open on_open) s t) [
    | inl (n, e) ↦ rw (e, n) refl
    | inr (n, e, f) ↦ rw (f, n) refl
  ]

  closed-advance :
      (k : ℕ) (s : LiveLogs)
      → IsTidy ws_url s.project_id s
      → link_of (deliver k on_close s) ≡ advance (closed k) (link_of s)
  unfolding on_close
  closed-advance k s t = elim (deliver-link k on_close s t) [
    | inl (n, e) ↦ rw (e, n) refl
    | inr (n, e, f) ↦
        rw (f, n)
          (ground (arith, t.waits, waiting-some s.project_id k s.reconnect_timeout_ref s.timers))
  ]

  received-advance :
      (parse : String → Option LiveLogMessage) (k : ℕ) (raw : String) (s : LiveLogs)
      → IsTidy ws_url s.project_id s
      → link_of (deliver k (while_open (on_message parse raw)) s) ≡ link_of s
  unfolding while_open on_message
  received-advance parse k raw s t = elim (deliver-link k (while_open (on_message parse raw)) s t) [
    | inl (n, e) ↦ rw e refl
    | inr (n, e, f) ↦ ground arith
  ]

  failed-advance :
      (k : ℕ) (s : LiveLogs)
      → IsTidy ws_url s.project_id s
      → link_of (deliver k (λ _ u. on_error u) s) ≡ link_of s
  unfolding on_error
  failed-advance k s t = elim (deliver-link k (λ _ u. on_error u) s t) [
    | inl (n, e) ↦ rw e refl
    | inr (n, e, f) ↦ rw f refl
  ]

  fire-advance :
      (t : ℕ) (s : LiveLogs)
      → IsTidy ws_url s.project_id s
      → link_of (fire ws_url t s) ≡ advance (timed_out t) (link_of s)
  unfolding fire on_timeout
  fire-advance t s h = elim (Option-cases (find (λ u. u.id == t) s.timers)) [
    | inl e ↦
        rw (e, fire)
          (rw (unawaited s.project_id s.ws_ref s.reconnect_timeout_ref t s.timers h.waits e) refl)
    | inr (u, e) ↦
        let (only, gone, same, clear) =
          found-waiting s.project_id s.ws_ref s.reconnect_timeout_ref t u s.timers h.waits e in
        let s' : LiveLogs = record s { timers = clear_timeout u.id s.timers } in
        rw (e, fire, same)
          (ground (
            arith,
            connect-link s' (fired ws_url s.project_id u s h),
            awaited s.project_id t u s.timers e,
          ))
  ]

  reconnect-advance :
      (s : LiveLogs)
      → IsTidy ws_url s.project_id s
      → link_of (reconnect ws_url s) ≡ advance user_reconnects (link_of s)
  unfolding reconnect
  reconnect-advance s t =
      connect-link (record s { reconnect_attempts_ref = 0 })
        (IsTidy-congr ws_url s.project_id s _ refl refl refl refl t)

  set_streaming-advance :
      (b : Bool) (s : LiveLogs)
      → IsTidy ws_url s.project_id s
      → link_of (set_streaming ws_url b s) ≡ advance (user_streams b) (link_of s)
  unfolding set_streaming pause
  set_streaming-advance false s t =
      let s' : LiveLogs = record s { is_streaming = false } in
      ground (
        arith,
        cleanup_ws-Keeps s',
        cleanup_ws-next_id s',
        cleanup_ws-IsQuiet ws_url s.project_id s'
            (IsTidy-congr ws_url s.project_id s s' refl refl refl refl t),
      )
  set_streaming-advance true s t =
      let s' : LiveLogs = record s { is_streaming = true; reconnect_attempts_ref = 0 } in
      ground (arith, connect-link s' (IsTidy-congr ws_url s.project_id s s' refl refl refl refl t))

  render-advance :
      (q : String) (s : LiveLogs)
      → IsTidy ws_url s.project_id s
      → link_of (render ws_url q s) ≡ advance (rendered q) (link_of s)
  unfolding render run_effect
  render-advance q s t =
      let s' : LiveLogs = record s { project_id = q; is_streaming_ref = s.is_streaming } in
      let quiet =
        cleanup_ws-IsQuiet ws_url s.project_id s'
          (IsTidy-congr ws_url s.project_id s s' refl refl refl refl t) in
      ground (
        arith,
        quiet,
        cleanup_ws-Keeps s',
        cleanup_ws-next_id s',
        connect-link (cleanup_ws s')
            (IsQuiet-IsTidy ws_url (cleanup_ws s').project_id (cleanup_ws s') quiet),
      )

  module _ (parse : String → Option LiveLogMessage) where
    handle-advance :
        (e : Event) (s : LiveLogs)
        → IsTidy ws_url s.project_id s
        → link_of (handle ws_url parse e s) ≡ advance e (link_of s)
    unfolding handle clear_messages
    handle-advance (opened k) s t = opened-advance k s t
    handle-advance (received k raw) s t = received-advance parse k raw s t
    handle-advance (failed k) s t = failed-advance k s t
    handle-advance (closed k) s t = closed-advance k s t
    handle-advance (timed_out i) s t = fire-advance i s t
    handle-advance user_reconnects s t = reconnect-advance s t
    handle-advance user_clears s t = refl
    handle-advance (user_streams b) s t = set_streaming-advance b s t
    handle-advance (rendered q) s t = render-advance q s t

    run-link :
        (es : List Event) (s : LiveLogs)
        → IsTidy ws_url s.project_id s
        → link_of (run ws_url parse es s) ≡ advance_all es (link_of s)
    unfolding run
    run-link [] s t = refl
    run-link (e ∷ es) s t =
        run-link es (handle ws_url parse e s) (handle-IsTidy ws_url parse e s t)
        ∙ ap (advance_all es) (handle-advance e s t)

    -- Along any sequence of events from the first render on, in any order, the provider is what a link is
    -- after them: a link that starts up if there is a project and off otherwise; that `open` of the
    -- socket it is up with frees of its failures; that the loss of that socket leaves waiting, with
    -- one failure more, if it was on at the last render and had fewer than 10, and off otherwise;
    -- that the timeout it waits for raises again; that no event of another socket or timeout
    -- changes; and that only the user and a render switch on, off or to another project.
    pub mount-run-link :
        (project : String) (es : List Event)
        → link_of (run ws_url parse es (mount ws_url project)) ≡ advance_all es (started project)
    unfolding mount run_effect
    mount-run-link project es =
        let e : link_of (mount ws_url project) ≡ started project =
          ground (arith, connect-link (initial project) (initial-IsTidy ws_url project)) in
        run-link es (mount ws_url project) (mount-IsTidy ws_url project) ∙ ap (advance_all es) e
