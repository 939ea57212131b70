-- ===== src/Live.antt =====
-- frontend/src/lib/providers/live-logs-provider.tsx. The record holds the React state, the refs,
-- the project of the last render (which the callbacks of that render close over), and what the
-- provider has created in the browser. A handler returns the new record. The setters of the source
-- are functional updates or constants, so running them in order gives the batched result.
pub mod Cleanup
pub mod Events
pub mod Tidy
pub mod Frame
pub mod Single
pub mod Switch
pub mod Silence
pub mod Progress
pub mod Buffer
pub mod Outage
pub mod Link
use Prim.Native.String.{◌++◌ as join}
use org_log.Prelude.{
  ℕ, suc, ◌+◌, ◌*◌, ◌^◌, min, String, Bool, true, false, not, ◌&&◌, Option, none, some, List, [],
  ◌∷◌, length, take, find, ltb, ◌==◌, is_some, bool_eq, str_eq, truthy, if◌then◌else◌,
}
use org_log.Types.{LiveLogMessage}
use org_log.Config.Endpoints
use org_log.Browser.{Socket, Timer, detach, close, finish, listening, clear_timeout}

abbrev pub max_messages : ℕ
max_messages = 1000

abbrev pub max_reconnect_attempts : ℕ
max_reconnect_attempts = 10

pub record LiveLogs : Type 0 where
  pub messages : List LiveLogMessage
  pub is_connected : Bool
  pub is_connecting : Bool
  pub is_streaming : Bool
  pub error : Option String
  pub total_received : ℕ
  pub ws_ref : Option ℕ
  pub reconnect_timeout_ref : Option ℕ
  pub reconnect_attempts_ref : ℕ
  pub is_streaming_ref : Bool
  pub project_id : String
  pub sockets : List Socket
  pub timers : List Timer
  pub next_id : ℕ

-- The state of the first render.
abbrev pub initial : String → LiveLogs
initial project = record {
  messages = [];
  is_connected = false;
  is_connecting = false;
  is_streaming = true;
  error = none;
  total_received = 0;
  ws_ref = none;
  reconnect_timeout_ref = none;
  reconnect_attempts_ref = 0;
  is_streaming_ref = true;
  project_id = project;
  sockets = [];
  timers = [];
  next_id = 1;
}

-- The first half of `cleanupWs`: the pending timeout.
drop_timeout : LiveLogs → LiveLogs
drop_timeout s = elim s.reconnect_timeout_ref [
  | none ↦ s
  | some t ↦ record s { timers = clear_timeout t s.timers; reconnect_timeout_ref = none }
]

-- The second half: the socket loses its handlers and is closed.
drop_socket : LiveLogs → LiveLogs
drop_socket s = elim s.ws_ref [
  | none ↦ s
  | some k ↦ record s { sockets = close k (detach k s.sockets); ws_ref = none }
]

unfoldable pub cleanup_ws : LiveLogs → LiveLogs
unfolding drop_timeout drop_socket
cleanup_ws s = drop_socket (drop_timeout s)

-- `Math.min(1000 * Math.pow(2, attempts), 30000)`
abbrev pub backoff : ℕ → ℕ
backoff attempts = min (1000 * 2 ^ attempts) 30000

-- `setMessages`: the newest message comes first.
unfoldable pub push : LiveLogMessage → List LiveLogMessage → List LiveLogMessage
push m prev =
    let updated = m ∷ prev in
    if ltb max_messages (length updated) then take max_messages updated else updated

unfoldable pub on_open : LiveLogs → LiveLogs
on_open s = record s {
  is_connected = true;
  is_connecting = false;
  error = none;
  reconnect_attempts_ref = 0;
}

unfoldable pub on_error : LiveLogs → LiveLogs
on_error s = record s { error = some "WebSocket connection error"; is_connecting = false }

-- `parse` is `JSON.parse`, `none` where it throws.
unfoldable pub on_message : (String → Option LiveLogMessage) → String → LiveLogs → LiveLogs
on_message parse raw s = elim (parse raw) [
  | none ↦ s
  | some m ↦ record s { messages = push m s.messages; total_received = s.total_received + 1 }
]

-- The timeout that `onclose` sets, in the closure of the project that the socket was made for.
schedule : String → LiveLogs → LiveLogs
schedule project s = record s {
  reconnect_attempts_ref = s.reconnect_attempts_ref + 1;
  timers =
      record { id = s.next_id; delay = backoff s.reconnect_attempts_ref; project_id = project }
      ∷ s.timers;
  reconnect_timeout_ref = some s.next_id;
  next_id = suc s.next_id;
}

unfoldable pub on_close : Socket → LiveLogs → LiveLogs
unfolding schedule
on_close c s =
    let t = record s {
      is_connected = false;
      is_connecting = false;
      ws_ref = none;
      sockets = finish c.id s.sockets;
    } in
    if s.is_streaming_ref && ltb s.reconnect_attempts_ref max_reconnect_attempts
    then schedule c.project_id t
    else t

unfoldable pub clear_messages : LiveLogs → LiveLogs
clear_messages s = record s { messages = []; total_received = 0 }

-- The branch of `setStreaming(false)`.
unfoldable pub pause : LiveLogs → LiveLogs
pause s = record (cleanup_ws s) { is_connected = false; is_connecting = false }

-- `ws_url` is `API_CONFIG.wsUrl`.
module _ (ws_url : String) where
  abbrev pub socket_url : String → String
  socket_url project = join ws_url (join Endpoints.websocket (join "/" project))

  abbrev pub new_socket : ℕ → String → Socket
  new_socket k project = record {
    id = k;
    project_id = project;
    url = socket_url project;
    handlers = true;
    closing = false;
  }

  -- The body of `connect` behind its guard.
  unfoldable pub open_socket : String → LiveLogs → LiveLogs
  open_socket project s = record s {
    is_connecting = true;
    error = none;
    sockets = new_socket s.next_id project ∷ s.sockets;
    ws_ref = some s.next_id;
    next_id = suc s.next_id;
  }

  -- `connect`, closed over `project`. The configured address is a valid one, so that `new WebSocket` does
  -- not throw.
  unfoldable pub connect : String → LiveLogs → LiveLogs
  unfolding open_socket
  connect project s = if truthy project then open_socket project (cleanup_ws s) else s

  -- A pending timeout fires: its `connect` runs.
  unfoldable pub on_timeout : Timer → LiveLogs → LiveLogs
  on_timeout t s = connect t.project_id (record s { timers = clear_timeout t.id s.timers })

  unfoldable pub reconnect : LiveLogs → LiveLogs
  reconnect s = connect s.project_id (record s { reconnect_attempts_ref = 0 })

  unfoldable pub set_streaming : Bool → LiveLogs → LiveLogs
  unfolding pause
  set_streaming streaming s =
      let t = record s { is_streaming = streaming } in
      if streaming && not (is_some s.ws_ref)
      then connect s.project_id (record t { reconnect_attempts_ref = 0 })
      else if not streaming
      then pause t
      else t

  -- The body of the effect.
  unfoldable pub run_effect : LiveLogs → LiveLogs
  run_effect s = if s.is_streaming && truthy s.project_id then connect s.project_id s else s

  -- A render with a project from the context, and its commit. The dependencies of the effect are the
  -- project and `isStreaming`, as they were at the render before; where one has changed, the old
  -- effect's cleanup runs, then the effect.
  unfoldable pub render : String → LiveLogs → LiveLogs
  render project s =
      let t = record s { project_id = project; is_streaming_ref = s.is_streaming } in
      if str_eq project s.project_id && bool_eq s.is_streaming s.is_streaming_ref
      then t
      else run_effect (cleanup_ws t)

  unfoldable pub mount : String → LiveLogs
  mount project = run_effect (initial project)
