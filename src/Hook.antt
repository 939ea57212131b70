-- ===== src/Hook.antt =====
-- frontend/src/lib/hooks/use-websocket.ts, the hook that the provider of live-logs-provider.tsx
-- repeats with a stricter cleanup. The record holds the React state, the refs, the options of the
-- last render, the calls made to the `onMessage` option, and what the hook created in the browser.
-- A connection and a timeout belong to the render whose `connect` made them: their closures keep the
-- project, in the socket and in the timer, and `maxMessages`, in `limits` under their identifiers.
pub mod Bounds
pub mod Leaks
use org_log.Prelude.{
  ℕ, suc, ◌+◌, String, Bool, true, false, not, ◌&&◌, Option, none, some, List, [], ◌∷◌, take, find,
  ltb, ◌==◌, bool_eq, str_eq, truthy, if◌then◌else◌,
}
use org_log.Types.{LiveLogMessage}
use org_log.Browser.{Socket, Timer, close, finish, listening, clear_timeout}
use org_log.Live.{backoff, new_socket}

abbrev pub max_reconnect_attempts : ℕ
max_reconnect_attempts = 5

pub record Hook : Type 0 where
  pub messages : List LiveLogMessage
  pub is_connected : Bool
  pub is_connecting : Bool
  pub error : Option String
  pub ws_ref : Option ℕ
  pub reconnect_timeout_ref : Option ℕ
  pub reconnect_attempts_ref : ℕ
  pub enabled_ref : Bool
  pub project_id : String
  pub max_messages : ℕ
  pub has_callback : Bool
  pub called_back : List LiveLogMessage
  pub sockets : List Socket
  pub timers : List Timer
  pub limits : List (ℕ × ℕ)
  pub next_id : ℕ

-- `maxMessages` in the closure that a socket or a timeout belongs to.
unfoldable pub limit_of : ℕ → List (ℕ × ℕ) → ℕ
limit_of k [] = 0
limit_of k ((j, n) ∷ limits) = let rest = limit_of k limits in if j == k then n else rest

unfoldable pub clear_messages : Hook → Hook
clear_messages s = record s { messages = [] }

-- Closes the current socket. Its handlers stay attached.
unfoldable pub close_current : Hook → Hook
close_current s = elim s.ws_ref [
  | none ↦ s
  | some k ↦ record s { sockets = close k s.sockets; ws_ref = none }
]

unfoldable pub on_open : Hook → Hook
on_open s = record s {
  is_connected = true;
  is_connecting = false;
  error = none;
  reconnect_attempts_ref = 0;
}

unfoldable pub on_message : (String → Option LiveLogMessage) → String → Socket → Hook → Hook
unfolding limit_of
on_message parse raw c s = elim (parse raw) [
  | none ↦ s
  | some m ↦ record s {
    messages = take (limit_of c.id s.limits) (m ∷ s.messages);
    called_back = if s.has_callback then m ∷ s.called_back else s.called_back;
  }
]

unfoldable pub on_error : Hook → Hook
on_error s = record s { error = some "WebSocket connection error"; is_connecting = false }

-- `limit`: `maxMessages` in the closure.
schedule : String → ℕ → Hook → Hook
schedule project limit s = record s {
  reconnect_attempts_ref = s.reconnect_attempts_ref + 1;
  timers =
      record { id = s.next_id; delay = backoff s.reconnect_attempts_ref; project_id = project }
      ∷ s.timers;
  reconnect_timeout_ref = some s.next_id;
  limits = (s.next_id, limit) ∷ s.limits;
  next_id = suc s.next_id;
}

unfoldable pub on_close : Socket → Hook → Hook
unfolding schedule limit_of
on_close c s =
    let t = record s {
      is_connected = false;
      is_connecting = false;
      ws_ref = none;
      sockets = finish c.id s.sockets;
    } in
    if s.enabled_ref && ltb s.reconnect_attempts_ref max_reconnect_attempts
    then schedule c.project_id (limit_of c.id s.limits) t
    else t

-- The cleanup of the effect: the pending timeout is cleared, the current socket closed.
unfoldable pub cleanup : Hook → Hook
unfolding close_current
cleanup s = elim s.reconnect_timeout_ref [
  | none ↦ close_current s
  | some t ↦ close_current (record s { timers = clear_timeout t s.timers })
]

module _ (ws_url : String) where
  unfoldable pub open_socket : String → ℕ → Hook → Hook
  open_socket project limit s = record s {
    is_connecting = true;
    error = none;
    sockets = new_socket ws_url s.next_id project ∷ s.sockets;
    ws_ref = some s.next_id;
    limits = (s.next_id, limit) ∷ s.limits;
    next_id = suc s.next_id;
  }

  -- `connect`, closed over `project` and `maxMessages`.
  unfoldable pub connect : String → ℕ → Hook → Hook
  unfolding open_socket close_current
  connect project limit s =
      if s.enabled_ref && truthy project then open_socket project limit (close_current s) else s

  unfoldable pub reconnect : Hook → Hook
  unfolding connect
  reconnect s = connect s.project_id s.max_messages (record s { reconnect_attempts_ref = 0 })

  -- A render with new options, and its commit. The dependencies of the effect are `enabled`, the project
  -- and `connect`, which is a new one whenever `maxMessages` is.
  unfoldable pub render : Bool → String → ℕ → Hook → Hook
  unfolding connect cleanup
  render enabled project limit s =
      let t = record s { project_id = project; enabled_ref = enabled; max_messages = limit } in
      if str_eq project s.project_id && (bool_eq enabled s.enabled_ref && (limit == s.max_messages))
      then t
      else if enabled && truthy project
      then connect project limit (cleanup t)
      else cleanup t

pub data Event : Type 0 where
  opened : ℕ → Event
  received : ℕ → String → Event
  failed : ℕ → Event
  closed : ℕ → Event
  timed_out : ℕ → Event
  user_reconnects : Event
  user_clears : Event
  rendered : Bool → String → ℕ → Event

unfoldable pub deliver : ℕ → (Socket → Hook → Hook) → Hook → Hook
deliver k handler s = elim (find (λ c. c.id == k) (listening s.sockets)) [
  | none ↦ s
  | some c ↦ handler c s
]

unfoldable pub while_open : (Hook → Hook) → Socket → Hook → Hook
while_open handler c s = if c.closing then s else handler s

unfoldable pub fire : String → ℕ → Hook → Hook
unfolding limit_of
fire ws_url t s = elim (find (λ u. u.id == t) s.timers) [
  | none ↦ s
  | some u ↦
      connect ws_url u.project_id (limit_of u.id s.limits)
        (record s { timers = clear_timeout u.id s.timers })
]

module _ (ws_url : String) (parse : String → Option LiveLogMessage) where
  unfoldable pub handle : Event → Hook → Hook
  handle (opened k) s = deliver k (while_open on_open) s
  handle (received k raw) s = deliver k (λ c. while_open (on_message parse raw c) c) s
  handle (failed k) s = deliver k (λ _ t. on_error t) s
  handle (closed k) s = deliver k on_close s
  handle (timed_out t) s = fire ws_url t s
  handle user_reconnects s = reconnect ws_url s
  handle user_clears s = clear_messages s
  handle (rendered enabled project limit) s = render ws_url enabled project limit s

  unfoldable pub run : List Event → Hook → Hook
  run [] s = s
  run (e ∷ es) s = run es (handle e s)
