-- ===== src/Live/Single.antt =====
-- The provider holds at most one connection, the current project's, through every event.
use org_log.Prelude.{
  ℕ, ◌≡◌, refl, subst, sym, String, true, Option, List, [], ◌∷◌, arith, truthy, Bool-cases, inl,
  inr, str_eq, eq_iff, ◌&&◌, bool_eq,
}
use org_log.Types.{LiveLogMessage}
use org_log.Browser.{Socket}
use org_log.Live.{
  LiveLogs, cleanup_ws, new_socket, on_open, on_message, on_error, on_close, reconnect,
  clear_messages, run_effect, render, mount, initial,
}
use org_log.Live.Cleanup.{
  IsTidy, IsQuiet, cleanup_ws-IsQuiet, connect-IsTidy, IsQuiet-IsTidy, cleanup_ws-Keeps,
}
use org_log.Live.Tidy.{
  deliver-IsTidy, on_close-IsTidy, set_streaming-IsTidy, IsTidy-congr, fire-IsTidy,
}
use org_log.Live.Frame.{project_after, handle-project_id, run_effect-project_id}
use org_log.Live.Events.{
  Event, opened, received, failed, closed, timed_out, user_reconnects, user_clears, user_streams,
  rendered, deliver, while_open, handle, run,
}

module _ (ws_url : String) where
  -- A handler that touches neither sockets nor timeouts.
  same_browser :
      (k : ℕ) (handler : Socket → LiveLogs → LiveLogs) (s : LiveLogs)
      → ((c : Socket)
          → ((handler c s).sockets ≡ s.sockets)
            × ((handler c s).ws_ref ≡ s.ws_ref)
            × ((handler c s).timers ≡ s.timers)
            × ((handler c s).reconnect_timeout_ref ≡ s.reconnect_timeout_ref))
      → IsTidy ws_url s.project_id s
      → IsTidy ws_url s.project_id (deliver k handler s)
  same_browser k handler s same h =
      deliver-IsTidy ws_url s.project_id k handler s
        (λ _.
          let (a, b, c, d) = same (new_socket ws_url k s.project_id) in
          IsTidy-congr ws_url s.project_id s _ a b c d h)
        h

  run_effect-IsTidy :
      (s : LiveLogs)
      → IsTidy ws_url s.project_id s
      → IsTidy ws_url s.project_id (run_effect ws_url s)
  unfolding run_effect
  run_effect-IsTidy s h = elim (Bool-cases (s.is_streaming && truthy s.project_id)) [
    | inl f ↦ rw f (connect-IsTidy ws_url s.project_id s h)
    | inr f ↦ rw f h
  ]

  run_effect_of_cleanup :
      (q : String) (s : LiveLogs)
      → IsTidy ws_url q s
      → IsTidy ws_url s.project_id (run_effect ws_url (cleanup_ws s))
  run_effect_of_cleanup q s h =
      subst (λ p. IsTidy ws_url p (run_effect ws_url (cleanup_ws s)))
        (cleanup_ws-Keeps s).project_id
        (run_effect-IsTidy (cleanup_ws s)
          (IsQuiet-IsTidy ws_url (cleanup_ws s).project_id _ (cleanup_ws-IsQuiet ws_url q s h)))

  -- A render keeps the connection of an unchanged project, and replaces that of another.
  pub render-IsTidy :
      (project : String) (s : LiveLogs)
      → IsTidy ws_url s.project_id s
      → IsTidy ws_url project (render ws_url project s)
  unfolding render
  render-IsTidy project s h =
      elim (Bool-cases (str_eq project s.project_id && bool_eq s.is_streaming s.is_streaming_ref)) [
        | inl f ↦ rw f (IsTidy-congr ws_url project s _ refl refl refl refl (at_project f))
        | inr f ↦ rw f (
            run_effect_of_cleanup s.project_id _
              (IsTidy-congr ws_url s.project_id s _ refl refl refl refl h))
      ]
    where
      at_project :
          (str_eq project s.project_id && bool_eq s.is_streaming s.is_streaming_ref) ≡ true
          → IsTidy ws_url project s
      at_project f =
          let same : s.project_id ≡ project = ground (arith, eq_iff project s.project_id) in
          subst (λ p. IsTidy ws_url p s) same h

  step-IsTidy :
      (parse : String → Option LiveLogMessage) (e : Event) (s : LiveLogs)
      → IsTidy ws_url s.project_id s
      → IsTidy ws_url (project_after e s) (handle ws_url parse e s)
  unfolding handle while_open on_open on_message on_error clear_messages reconnect
  step-IsTidy parse (rendered project) s h = render-IsTidy project s h
  step-IsTidy parse (opened k) s h = same_browser k (while_open on_open) s (λ c. ground arith) h
  step-IsTidy parse (received k raw) s h =
      same_browser k (while_open (on_message parse raw)) s (λ c. ground arith) h
  step-IsTidy parse (failed k) s h =
      same_browser k (λ _ t. on_error t) s (λ c. (refl, refl, refl, refl)) h
  step-IsTidy parse (closed k) s h =
      deliver-IsTidy ws_url s.project_id k on_close s (on_close-IsTidy ws_url s.project_id k s h) h
  step-IsTidy parse (timed_out t) s h = fire-IsTidy ws_url s.project_id t s h
  step-IsTidy parse user_reconnects s h =
      connect-IsTidy ws_url s.project_id _
        (IsTidy-congr ws_url s.project_id s _ refl refl refl refl h)
  step-IsTidy parse user_clears s h = IsTidy-congr ws_url s.project_id s _ refl refl refl refl h
  step-IsTidy parse (user_streams b) s h = set_streaming-IsTidy ws_url s.project_id b s refl h

  -- Every event, in every tidy state, leaves the provider tidy.
  pub handle-IsTidy :
      (parse : String → Option LiveLogMessage) (e : Event) (s : LiveLogs)
      → IsTidy ws_url s.project_id s
      → IsTidy ws_url (handle ws_url parse e s).project_id (handle ws_url parse e s)
  handle-IsTidy parse e s h =
      subst (λ p. IsTidy ws_url p (handle ws_url parse e s))
        (sym (handle-project_id ws_url parse e s)) (step-IsTidy parse e s h)

  pub run-IsTidy :
      (parse : String → Option LiveLogMessage) (es : List Event) (s : LiveLogs)
      → IsTidy ws_url s.project_id s
      → IsTidy ws_url (run ws_url parse es s).project_id (run ws_url parse es s)
  unfolding run
  run-IsTidy parse [] s h = h
  run-IsTidy parse (e ∷ es) s h =
      run-IsTidy parse es (handle ws_url parse e s) (handle-IsTidy parse e s h)

  pub initial-IsTidy : (project : String) → IsTidy ws_url project (initial project)
  initial-IsTidy project = record { listens = refl; holds = refl; waits = tt }

  pub mount-IsTidy :
      (project : String) → IsTidy ws_url (mount ws_url project).project_id (mount ws_url project)
  unfolding mount
  mount-IsTidy project =
      subst (λ p. IsTidy ws_url p (run_effect ws_url (initial project)))
        (sym (run_effect-project_id ws_url (initial project)))
        (run_effect-IsTidy (initial project) (initial-IsTidy project))

  -- After any sequence of events from the first render on, in any order: the sockets that listen are
  -- those that are held open, they are none or exactly the one that `wsRef` refers to, which is
  -- subscribed to the project of the last render; and a timeout is pending only while there is no
  -- socket, at most one, known to `reconnectTimeoutRef`, for that project, of at most 30000 ms.
  pub mount-run-IsTidy :
      (parse : String → Option LiveLogMessage) (project : String) (es : List Event)
      → IsTidy ws_url
          (run ws_url parse es (mount ws_url project)).project_id
          (run ws_url parse es (mount ws_url project))
  mount-run-IsTidy parse project es =
      run-IsTidy parse es (mount ws_url project) (mount-IsTidy project)

  -- When the provider is unmounted after any sequence of events, its cleanup leaves no socket
  -- listening, none open, no pending timeout and no reference to a socket.
  pub unmount-IsQuiet :
      (parse : String → Option LiveLogMessage) (project : String) (es : List Event)
      → IsQuiet (cleanup_ws (run ws_url parse es (mount ws_url project)))
  unmount-IsQuiet parse project es =
      cleanup_ws-IsQuiet ws_url _ _ (mount-run-IsTidy parse project es)
