-- ===== src/Live/Frame.antt =====
-- The project that the provider is at after an event.
use org_log.Prelude.{ℕ, ◌≡◌, refl, String, Bool, Option, find, ◌==◌, Option-cases, inl, inr, arith}
use org_log.Types.{LiveLogMessage}
use org_log.Browser.{Socket, listening}
use org_log.Live.{
  LiveLogs, cleanup_ws, on_open, on_message, on_error, on_close, on_timeout, reconnect,
  clear_messages, set_streaming, run_effect, render,
}
use org_log.Live.Cleanup.{cleanup_ws-Keeps, connect-Keeps}
use org_log.Live.Events.{
  Event, opened, received, failed, closed, timed_out, user_reconnects, user_clears, user_streams,
  rendered, deliver, while_open, fire, handle,
}

-- Only a render brings another project.
abbrev pub project_after : Event → LiveLogs → String
project_after (rendered project) s = project
project_after _ s = s.project_id

deliver-project_id :
    (k : ℕ) (handler : Socket → LiveLogs → LiveLogs) (s : LiveLogs)
    → ((c : Socket) → (handler c s).project_id ≡ s.project_id)
    → (deliver k handler s).project_id ≡ s.project_id
unfolding deliver
deliver-project_id k handler s h =
    elim (Option-cases (find (λ c. c.id == k) (listening s.sockets))) [
      | inl e ↦ rw (e, deliver) refl
      | inr (c, e) ↦ rw (e, deliver) (h c)
    ]

module _ (ws_url : String) where
  pub run_effect-project_id : (s : LiveLogs) → (run_effect ws_url s).project_id ≡ s.project_id
  unfolding run_effect
  run_effect-project_id s = ground (arith, connect-Keeps ws_url s.project_id s)

  pub render-project_id :
      (project : String) (s : LiveLogs) → (render ws_url project s).project_id ≡ project
  unfolding render
  render-project_id project s =
      let t : LiveLogs = record s { project_id = project; is_streaming_ref = s.is_streaming } in
      ground (arith, run_effect-project_id (cleanup_ws t), cleanup_ws-Keeps t)

  set_streaming-project_id :
      (b : Bool) (s : LiveLogs) → (set_streaming ws_url b s).project_id ≡ s.project_id
  unfolding set_streaming
  set_streaming-project_id b s =
      let t : LiveLogs = record s { is_streaming = b } in
      ground (
        arith,
        connect-Keeps ws_url s.project_id (record t { reconnect_attempts_ref = 0 }),
        cleanup_ws-Keeps t,
      )

  fire-project_id : (t : ℕ) (s : LiveLogs) → (fire ws_url t s).project_id ≡ s.project_id
  unfolding fire on_timeout
  fire-project_id t s = grind (arith, connect-Keeps)

  reconnect-project_id : (s : LiveLogs) → (reconnect ws_url s).project_id ≡ s.project_id
  unfolding reconnect
  reconnect-project_id s =
      (connect-Keeps ws_url s.project_id (record s { reconnect_attempts_ref = 0 })).project_id

  pub handle-project_id :
      (parse : String → Option LiveLogMessage) (e : Event) (s : LiveLogs)
      → (handle ws_url parse e s).project_id ≡ project_after e s
  unfolding handle while_open on_open on_message on_error on_close clear_messages
  handle-project_id parse (opened k) s =
      deliver-project_id k (while_open on_open) s (λ c. ground arith)
  handle-project_id parse (received k raw) s =
      deliver-project_id k (while_open (on_message parse raw)) s (λ c. ground arith)
  handle-project_id parse (failed k) s = deliver-project_id k (λ _ t. on_error t) s (λ c. refl)
  handle-project_id parse (closed k) s = deliver-project_id k on_close s (λ c. ground arith)
  handle-project_id parse (timed_out t) s = fire-project_id t s
  handle-project_id parse user_reconnects s = reconnect-project_id s
  handle-project_id parse user_clears s = refl
  handle-project_id parse (user_streams b) s = set_streaming-project_id b s
  handle-project_id parse (rendered project) s = render-project_id project s
