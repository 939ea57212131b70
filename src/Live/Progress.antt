-- ===== src/Live/Progress.antt =====
-- The provider never stalls: while it streams, it is connected, about to connect, or has given up
-- after `MAX_RECONNECT_ATTEMPTS` failures in a row.
use org_log.Prelude.{
  ℕ, ◌≤◌, ◌≡◌, String, Bool, true, false, Option, some, List, [], ◌∷◌, find, first, ◌==◌, ◌⊎◌,
  is_some, Option-cases, Bool-cases, inl, inr, arith, truthy, eq_iff,
}
use org_log.Types.{LiveLogMessage}
use org_log.Browser.{Socket, clear_timeout}
use org_log.Live.{
  LiveLogs, cleanup_ws, connect, new_socket, on_open, on_message, on_error, on_close, on_timeout,
  reconnect, clear_messages, set_streaming, run_effect, render, mount, initial,
  max_reconnect_attempts,
}
use org_log.Live.Cleanup.{IsTidy, cleanup_ws-Keeps, connect-Keeps, connect-ws_ref}
use org_log.Live.Tidy.{find-listening, find-waiting}
use org_log.Live.Single.{handle-IsTidy, mount-IsTidy}
use org_log.Live.Events.{
  Event, opened, received, failed, closed, timed_out, user_reconnects, user_clears, user_streams,
  rendered, deliver, while_open, fire, handle, run,
}

-- A socket, a pending timeout, or the end of the attempts.
abbrev pub IsTrying : LiveLogs → Type 0
IsTrying s =
    (is_some s.ws_ref ≡ true)
    ⊎ (is_some (first s.timers) ≡ true)
    ⊎ (s.reconnect_attempts_ref ≡ max_reconnect_attempts)

-- The attempts are counted up to their maximum, and no stream that should be on is given up early.
pub record IsLive (s : LiveLogs) : Type 0 where
  pub capped : s.reconnect_attempts_ref ≤ max_reconnect_attempts
  pub trying :
      (s.is_streaming ≡ false)
      ⊎ (s.is_streaming_ref ≡ false)
      ⊎ (truthy s.project_id ≡ false)
      ⊎ IsTrying s

-- The same with its three cases as hypotheses, which the operations use.
record IsKept (s : LiveLogs) : Type 0 where
  pub capped : s.reconnect_attempts_ref ≤ max_reconnect_attempts
  pub trying :
      s.is_streaming ≡ true → s.is_streaming_ref ≡ true → truthy s.project_id ≡ true → IsTrying s

IsKept-IsLive : (s : LiveLogs) → IsKept s → IsLive s
IsKept-IsLive s h = record { capped = h.capped; trying = cases }
  where
    cases :
        (s.is_streaming ≡ false)
        ⊎ (s.is_streaming_ref ≡ false)
        ⊎ (truthy s.project_id ≡ false)
        ⊎ IsTrying s
    cases = elim (Bool-cases s.is_streaming) [
      | inr e ↦ inl e
      | inl e ↦ elim (Bool-cases s.is_streaming_ref) [
        | inr f ↦ inr (inl f)
        | inl f ↦ elim (Bool-cases (truthy s.project_id)) [
          | inr g ↦ inr (inr (inl g))
          | inl g ↦ inr (inr (inr (h.trying e f g)))
        ]
      ]
    ]

on_open-IsKept : (k : ℕ) (s : LiveLogs) → s.ws_ref ≡ some k → IsKept s → IsKept (on_open s)
unfolding on_open
on_open-IsKept k s e h = ground arith

on_close-IsKept : (c : Socket) (s : LiveLogs) → IsKept s → IsKept (on_close c s)
unfolding on_close
on_close-IsKept c s h = ground arith

module _ (ws_url : String) where
  -- After a `connect` for the current project there is a socket, if there is a project.
  connect-IsKept :
      (s : LiveLogs)
      → s.reconnect_attempts_ref ≤ max_reconnect_attempts
      → IsKept (connect ws_url s.project_id s)
  connect-IsKept s h =
      ground (arith, connect-Keeps ws_url s.project_id s, connect-ws_ref ws_url s.project_id s)

  deliver-IsKept :
      (k : ℕ) (handler : Socket → LiveLogs → LiveLogs) (s : LiveLogs)
      → IsTidy ws_url s.project_id s
      → ((c : Socket) → s.ws_ref ≡ some k → IsKept (handler c s))
      → IsKept s
      → IsKept (deliver k handler s)
  unfolding deliver
  deliver-IsKept k handler s t step h = elim (find-listening ws_url s.project_id k s t) [
    | inl e ↦ rw (e, deliver) h
    | inr (e, f) ↦ rw (f, deliver) (step (new_socket ws_url k s.project_id) e)
  ]

  fire-IsKept :
      (t : ℕ) (s : LiveLogs) → IsTidy ws_url s.project_id s → IsKept s → IsKept (fire ws_url t s)
  unfolding fire on_timeout
  fire-IsKept t s w h = elim (Option-cases (find (λ u. u.id == t) s.timers)) [
    | inl e ↦ rw (e, fire) h
    | inr (u, e) ↦
        rw
          (
            e,
            fire,
            find-waiting s.project_id s.ws_ref s.reconnect_timeout_ref t u s.timers w.waits e,
          )
          (connect-IsKept (record s { timers = clear_timeout u.id s.timers }) h.capped)
  ]

  set_streaming-IsKept : (b : Bool) (s : LiveLogs) → IsKept s → IsKept (set_streaming ws_url b s)
  unfolding set_streaming
  set_streaming-IsKept true s h = elim (Bool-cases (is_some s.ws_ref)) [
    | inl f ↦ rw f (ground arith)
    | inr f ↦ rw f (
        connect-IsKept (record s { is_streaming = true; reconnect_attempts_ref = 0 })
          (ground arith))
  ]
  set_streaming-IsKept false s h =
      ground (arith, cleanup_ws-Keeps (record s { is_streaming = false }))

  run_effect-IsKept :
      (s : LiveLogs)
      → s.reconnect_attempts_ref ≤ max_reconnect_attempts
      → IsKept (run_effect ws_url s)
  unfolding run_effect
  run_effect-IsKept s h = ground (arith, connect-IsKept s)

  render-IsKept : (project : String) (s : LiveLogs) → IsKept s → IsKept (render ws_url project s)
  unfolding render
  render-IsKept project s h =
      let t : LiveLogs = record s { project_id = project; is_streaming_ref = s.is_streaming } in
      ground
        (arith, run_effect-IsKept (cleanup_ws t), cleanup_ws-Keeps t, eq_iff project s.project_id)

  handle-IsKept :
      (parse : String → Option LiveLogMessage) (e : Event) (s : LiveLogs)
      → IsTidy ws_url s.project_id s
      → IsKept s
      → IsKept (handle ws_url parse e s)
  unfolding handle while_open on_message on_error clear_messages reconnect
  handle-IsKept parse (opened k) s t h =
      deliver-IsKept k (while_open on_open) s t (λ c e. ground (arith, on_open-IsKept k s e h)) h
  handle-IsKept parse (received k raw) s t h =
      deliver-IsKept k (while_open (on_message parse raw)) s t (λ c e. ground arith) h
  handle-IsKept parse (failed k) s t h =
      deliver-IsKept k (λ _ u. on_error u) s t (λ c e. ground arith) h
  handle-IsKept parse (closed k) s t h =
      deliver-IsKept k on_close s t (λ c e. on_close-IsKept c s h) h
  handle-IsKept parse (timed_out i) s t h = fire-IsKept i s t h
  handle-IsKept parse user_reconnects s t h =
      connect-IsKept (record s { reconnect_attempts_ref = 0 }) (ground arith)
  handle-IsKept parse user_clears s t h = ground arith
  handle-IsKept parse (user_streams b) s t h = set_streaming-IsKept b s h
  handle-IsKept parse (rendered project) s t h = render-IsKept project s h

  run-IsKept :
      (parse : String → Option LiveLogMessage) (es : List Event) (s : LiveLogs)
      → IsTidy ws_url s.project_id s
      → IsKept s
      → IsKept (run ws_url parse es s)
  unfolding run
  run-IsKept parse [] s t h = h
  run-IsKept parse (e ∷ es) s t h =
      run-IsKept parse es (handle ws_url parse e s) (handle-IsTidy ws_url parse e s t)
        (handle-IsKept parse e s t h)

  -- After any sequence of events, in any order, the number of attempts is at most 10; and if the
  -- stream is on, was on at the last render too, and there is a project, then there is a socket, or a
  -- timeout is pending, or all 10 attempts have been used.
  pub mount-run-IsLive :
      (parse : String → Option LiveLogMessage) (project : String) (es : List Event)
      → IsLive (run ws_url parse es (mount ws_url project))
  mount-run-IsLive parse project es =
      IsKept-IsLive _
        (run-IsKept parse es (mount ws_url project) (mount-IsTidy ws_url project) mounted)
    where
      mounted : IsKept (mount ws_url project)
      mounted = unfold mount in run_effect-IsKept (initial project) (omega arith)
