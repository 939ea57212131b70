-- ===== src/Live/Events.antt =====
-- The provider as a state machine: what the browser, the user and React can do next. An event that
-- cannot reach the program (a socket without handlers, a timeout that was cleared) changes nothing.
use org_log.Prelude.{ℕ, String, Bool, Option, none, some, List, [], ◌∷◌, find, ◌==◌, if◌then◌else◌}
use org_log.Types.{LiveLogMessage}
use org_log.Browser.{Socket, listening}
use org_log.Live.{
  LiveLogs, on_open, on_message, on_error, on_close, on_timeout, reconnect, clear_messages,
  set_streaming, render,
}

pub data Event : Type 0 where
  opened : ℕ → Event
  received : ℕ → String → Event
  failed : ℕ → Event
  closed : ℕ → Event
  timed_out : ℕ → Event
  user_reconnects : Event
  user_clears : Event
  user_streams : Bool → Event
  rendered : String → Event

-- Hands an event of socket `k` to its handler, if it has one.
unfoldable pub deliver : ℕ → (Socket → LiveLogs → LiveLogs) → LiveLogs → LiveLogs
deliver k handler s = elim (find (λ c. c.id == k) (listening s.sockets)) [
  | none ↦ s
  | some c ↦ handler c s
]

-- `open` and `message` come only before `close()` is called.
unfoldable pub while_open : (LiveLogs → LiveLogs) → Socket → LiveLogs → LiveLogs
while_open handler c s = if c.closing then s else handler s

-- Timeout `t` fires, if it is still pending.
unfoldable pub fire : String → ℕ → LiveLogs → LiveLogs
fire ws_url t s = elim (find (λ u. u.id == t) s.timers) [
  | none ↦ s
  | some u ↦ on_timeout ws_url u s
]

module _ (ws_url : String) (parse : String → Option LiveLogMessage) where
  unfoldable pub handle : Event → LiveLogs → LiveLogs
  handle (opened k) s = deliver k (while_open on_open) s
  handle (received k raw) s = deliver k (while_open (on_message parse raw)) s
  handle (failed k) s = deliver k (λ _ t. on_error t) s
  handle (closed k) s = deliver k on_close s
  handle (timed_out t) s = fire ws_url t s
  handle user_reconnects s = reconnect ws_url s
  handle user_clears s = clear_messages s
  handle (user_streams b) s = set_streaming ws_url b s
  handle (rendered project) s = render ws_url project s

  unfoldable pub run : List Event → LiveLogs → LiveLogs
  run [] s = s
  run (e ∷ es) s = run es (handle e s)
