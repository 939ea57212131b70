-- ===== src/Live/Buffer.antt =====
-- The message buffer and the counter against the history of the messages that arrived.
use org_log.Prelude.{
  ℕ, ◌≡◌, refl, sym, ◌∙◌, String, Bool, Option, none, some, List, [], ◌∷◌, find, take, length, ◌==◌,
  Option-cases, Bool-cases, inl, inr, arith, ltb, if◌then◌else◌, take_all, take-cons-take,
}
use org_log.Types.{LiveLogMessage}
use org_log.Browser.{Socket, listening, clear_timeout}
use org_log.Live.{
  LiveLogs, max_messages, push, cleanup_ws, on_open, on_message, on_error, on_close, on_timeout,
  reconnect, clear_messages, set_streaming, run_effect, render, mount, initial,
}
use org_log.Live.Cleanup.{cleanup_ws-Keeps, connect-Keeps}
use org_log.Live.Events.{
  Event, opened, received, failed, closed, timed_out, user_reconnects, user_clears, user_streams,
  rendered, deliver, while_open, fire, handle, run,
}

-- The two branches of `setMessages` are one cut.
pub push_lem :
    (m : LiveLogMessage) (prev : List LiveLogMessage) → push m prev ≡ take max_messages (m ∷ prev)
unfolding push
push_lem m prev = elim (Bool-cases (ltb max_messages (length (m ∷ prev)))) [
  | inl e ↦ rw e
  | inr e ↦ rw e (sym (take_all max_messages (m ∷ prev) (ground arith)))
]

-- The message that an event brings: from a socket that listens and is not closing, in valid JSON.
pub arrived : (String → Option LiveLogMessage) → Event → LiveLogs → Option LiveLogMessage
arrived parse (received k raw) s = elim (find (λ c. c.id == k) (listening s.sockets)) [
  | none ↦ none
  | some c ↦ if c.closing then none else parse raw
]
arrived parse _ s = none

abbrev pub remembered : Option LiveLogMessage → List LiveLogMessage → List LiveLogMessage
remembered none past = past
remembered (some m) past = m ∷ past

-- All messages since the last clear, the newest first, with no bound.
pub remember :
    (String → Option LiveLogMessage) → Event → LiveLogs → List LiveLogMessage → List LiveLogMessage
remember parse user_clears s past = []
remember parse e s past = remembered (arrived parse e s) past

module _ (ws_url : String) (parse : String → Option LiveLogMessage) where
  pub history : List Event → LiveLogs → List LiveLogMessage → List LiveLogMessage
  history [] s past = past
  history (e ∷ es) s past = history es (handle ws_url parse e s) (remember parse e s past)

-- The buffer is the newest part of the history, and the counter is its length.
pub record IsWindow (past : List LiveLogMessage) (s : LiveLogs) : Type 0 where
  pub buffer : s.messages ≡ take max_messages past
  pub counter : s.total_received ≡ length past

on_message-IsWindow :
    (parse : String → Option LiveLogMessage) (raw : String) (past : List LiveLogMessage)
    (s : LiveLogs)
    → IsWindow past s
    → IsWindow (remembered (parse raw) past) (on_message parse raw s)
unfolding on_message
on_message-IsWindow parse raw past s h = elim (Option-cases (parse raw)) [
  | inl e ↦ rw (e, on_message) h
  | inr (m, e) ↦
      rw (e, on_message) (record { buffer = pushed m; counter = omega (arith, h.counter) })
]
  where
    pushed : (m : LiveLogMessage) → push m s.messages ≡ take max_messages (m ∷ past)
    pushed m = push_lem m s.messages ∙ (rw h.buffer (take-cons-take max_messages m past))

-- An operation that touches neither buffer nor counter.
IsWindow-congr :
    (past : List LiveLogMessage) (s t : LiveLogs)
    → t.messages ≡ s.messages
    → t.total_received ≡ s.total_received
    → IsWindow past s
    → IsWindow past t
IsWindow-congr past s t a b h = record { buffer = a ∙ h.buffer; counter = b ∙ h.counter }

deliver-IsWindow :
    (k : ℕ) (handler : Socket → LiveLogs → LiveLogs) (past : List LiveLogMessage) (s : LiveLogs)
    → ((c : Socket) → IsWindow past (handler c s))
    → IsWindow past s
    → IsWindow past (deliver k handler s)
unfolding deliver
deliver-IsWindow k handler past s step h =
    elim (Option-cases (find (λ c. c.id == k) (listening s.sockets))) [
      | inl e ↦ rw (e, deliver) h
      | inr (c, e) ↦ rw (e, deliver) (step c)
    ]

received-IsWindow :
    (parse : String → Option LiveLogMessage) (k : ℕ) (raw : String) (past : List LiveLogMessage)
    (s : LiveLogs)
    → IsWindow past s
    → IsWindow
        (remembered (arrived parse (received k raw) s) past)
        (deliver k (while_open (on_message parse raw)) s)
unfolding deliver arrived while_open
received-IsWindow parse k raw past s h =
    elim (Option-cases (find (λ c. c.id == k) (listening s.sockets))) [
      | inl e ↦ rw (e, deliver, arrived) h
      | inr (c, e) ↦ elim (Bool-cases c.closing) [
        | inl f ↦ rw (e, deliver, arrived) (rw f h)
        | inr f ↦ rw (e, deliver, arrived) (rw f (on_message-IsWindow parse raw past s h))
      ]
    ]

module _ (ws_url : String) (parse : String → Option LiveLogMessage) where
  set_streaming-IsWindow :
      (b : Bool) (past : List LiveLogMessage) (s : LiveLogs)
      → IsWindow past s
      → IsWindow past (set_streaming ws_url b s)
  unfolding set_streaming
  set_streaming-IsWindow b past s h =
      let t : LiveLogs = record s { is_streaming = b } in
      ground (
        arith,
        connect-Keeps ws_url s.project_id (record t { reconnect_attempts_ref = 0 }),
        cleanup_ws-Keeps t,
      )

  fire-IsWindow :
      (t : ℕ) (past : List LiveLogMessage) (s : LiveLogs)
      → IsWindow past s
      → IsWindow past (fire ws_url t s)
  unfolding fire on_timeout
  fire-IsWindow t past s h = elim (Option-cases (find (λ u. u.id == t) s.timers)) [
    | inl e ↦ rw (e, fire) h
    | inr (u, e) ↦
        let s' : LiveLogs = record s { timers = clear_timeout u.id s.timers } in
        let k = connect-Keeps ws_url u.project_id s' in
        rw (e, fire) (IsWindow-congr past s _ k.messages k.total_received h)
  ]

  run_effect-IsWindow :
      (past : List LiveLogMessage) (s : LiveLogs)
      → IsWindow past s
      → IsWindow past (run_effect ws_url s)
  unfolding run_effect
  run_effect-IsWindow past s h = ground (arith, connect-Keeps ws_url s.project_id s)

  render-IsWindow :
      (project : String) (past : List LiveLogMessage) (s : LiveLogs)
      → IsWindow past s
      → IsWindow past (render ws_url project s)
  unfolding render
  render-IsWindow project past s h =
      let t : LiveLogs = record s { project_id = project; is_streaming_ref = s.is_streaming } in
      ground (arith, run_effect-IsWindow past (cleanup_ws t), cleanup_ws-Keeps t)

  handle-IsWindow :
      (e : Event) (past : List LiveLogMessage) (s : LiveLogs)
      → IsWindow past s
      → IsWindow (remember parse e s past) (handle ws_url parse e s)
  unfolding handle remember arrived while_open on_open on_error on_close clear_messages reconnect
  handle-IsWindow (opened k) past s h =
      deliver-IsWindow k (while_open on_open) past s (λ c. ground arith) h
  handle-IsWindow (received k raw) past s h = received-IsWindow parse k raw past s h
  handle-IsWindow (failed k) past s h =
      deliver-IsWindow k (λ _ t. on_error t) past s (λ c. ground arith) h
  handle-IsWindow (closed k) past s h = deliver-IsWindow k on_close past s (λ c. ground arith) h
  handle-IsWindow (timed_out t) past s h = fire-IsWindow t past s h
  handle-IsWindow user_reconnects past s h =
      let k = connect-Keeps ws_url s.project_id (record s { reconnect_attempts_ref = 0 }) in
      IsWindow-congr past s _ k.messages k.total_received h
  handle-IsWindow user_clears past s h = record { buffer = refl; counter = refl }
  handle-IsWindow (user_streams b) past s h = set_streaming-IsWindow b past s h
  handle-IsWindow (rendered project) past s h = render-IsWindow project past s h

  run-IsWindow :
      (es : List Event) (past : List LiveLogMessage) (s : LiveLogs)
      → IsWindow past s
      → IsWindow (history ws_url parse es s past) (run ws_url parse es s)
  unfolding run history
  run-IsWindow [] past s h = h
  run-IsWindow (e ∷ es) past s h =
      run-IsWindow es (remember parse e s past) (handle ws_url parse e s)
        (handle-IsWindow e past s h)

  -- After any sequence of events, in any order, the buffer holds the newest 1000 of the messages
  -- that arrived since the last clear, the newest first, and the counter is the number of all
  -- messages that arrived since the last clear.
  pub mount-run-IsWindow :
      (project : String) (es : List Event)
      → IsWindow
          (history ws_url parse es (mount ws_url project) [])
          (run ws_url parse es (mount ws_url project))
  mount-run-IsWindow project es = run-IsWindow es [] (mount ws_url project) (
      unfold mount in
      run_effect-IsWindow [] (initial project) (record { buffer = refl; counter = refl }))
