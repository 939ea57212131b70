-- ===== src/Live/Cleanup.antt =====
-- What `cleanupWs` and `connect` leave behind in the browser.
use org_log.Prelude.{
  ℕ, ◌≤◌, ◌≡◌, refl, ap, ◌∙◌, String, true, Option, none, some, List, [], ◌∷◌, arith, truthy,
  ==_self, Option-cases, is_some, Bool-cases, inl, inr,
}
use org_log.Browser.{Socket, Timer, detach, close, finish, listening, held, clear_timeout}
use org_log.Browser.Sockets.{listening-detach, listening-close_empty, held-close-detach}
use org_log.Live.{LiveLogs, cleanup_ws, connect, new_socket, open_socket, drop_timeout}

-- The sockets that should listen and be open: the one that `wsRef` refers to, subscribed to `project`.
abbrev pub current : String → String → Option ℕ → List Socket
current ws_url project none = []
current ws_url project (some k) = new_socket ws_url k project ∷ []

-- A timeout is pending only while there is no socket; `reconnectTimeoutRef` refers to it, its closure
-- is the current project's, and its delay is at most half a minute.
abbrev pub IsWaiting : String → Option ℕ → Option ℕ → List Timer → Type 0
IsWaiting project ws ref [] = Unit {0}
IsWaiting project ws ref (t ∷ []) =
    (ref ≡ some t.id) × (ws ≡ none) × (t.project_id ≡ project) × (t.delay ≤ 30000)
IsWaiting project ws ref (t ∷ u ∷ ts) = ⊥

-- The provider holds one connection or none, to `project`.
pub record IsTidy (ws_url project : String) (s : LiveLogs) : Type 0 where
  pub listens : listening s.sockets ≡ current ws_url project s.ws_ref
  pub holds : held s.sockets ≡ current ws_url project s.ws_ref
  pub waits : IsWaiting project s.ws_ref s.reconnect_timeout_ref s.timers

-- Nothing can call back.
pub record IsQuiet (s : LiveLogs) : Type 0 where
  pub silent : listening s.sockets ≡ []
  pub released : held s.sockets ≡ []
  pub idle : s.timers ≡ []
  pub no_ref : s.ws_ref ≡ none

clear_timeout_waiting :
    (project : String) (ws : Option ℕ) (t : ℕ) (ts : List Timer)
    → IsWaiting project ws (some t) ts
    → clear_timeout t ts ≡ []
clear_timeout_waiting project ws t [] h = refl
clear_timeout_waiting project ws t (u ∷ []) h = ground arith
clear_timeout_waiting project ws t (u ∷ v ∷ ts) h = absurd h

idle_of_no_timeout :
    (project : String) (ws : Option ℕ) (ts : List Timer) → IsWaiting project ws none ts → ts ≡ []
idle_of_no_timeout project ws [] h = refl
idle_of_no_timeout project ws (u ∷ []) h = cc
idle_of_no_timeout project ws (u ∷ v ∷ ts) h = absurd h

IsWaiting-idle :
    (project : String) (ws ref : Option ℕ) (ts : List Timer) → ts ≡ [] → IsWaiting project ws ref ts
IsWaiting-idle project ws ref ts e = rw e tt

module _ (ws_url project : String) where
  finish-current : (k : ℕ) → finish k (current ws_url project (some k)) ≡ []
  finish-current k = rw (==_self k)

  drop_timeout-idle : (s : LiveLogs) → IsTidy ws_url project s → (drop_timeout s).timers ≡ []
  unfolding drop_timeout
  drop_timeout-idle s h = elim (Option-cases s.reconnect_timeout_ref) [
    | inl e ↦ ground (arith, idle_of_no_timeout project s.ws_ref s.timers)
    | inr (t, e) ↦ ground (arith, clear_timeout_waiting project s.ws_ref t s.timers)
  ]

  silent_after :
      (k : ℕ) (cs : List Socket)
      → listening cs ≡ current ws_url project (some k)
      → listening (close k (detach k cs)) ≡ []
  silent_after k cs h =
      listening-close_empty k (detach k cs)
        (listening-detach k cs ∙ ap (finish k) h ∙ finish-current k)

  released_after :
      (k : ℕ) (cs : List Socket)
      → held cs ≡ current ws_url project (some k)
      → held (close k (detach k cs)) ≡ []
  released_after k cs h = held-close-detach k cs ∙ ap (finish k) h ∙ finish-current k

  -- Whatever the state, after `cleanupWs` nothing can call back.
  pub cleanup_ws-IsQuiet : (s : LiveLogs) → IsTidy ws_url project s → IsQuiet (cleanup_ws s)
  unfolding cleanup_ws
  cleanup_ws-IsQuiet s h = elim (Option-cases s.ws_ref) [
    | inl e ↦ ground (arith, drop_timeout-idle s h)
    | inr (k, e) ↦
        ground (arith, drop_timeout-idle s h, silent_after k s.sockets, released_after k s.sockets)
  ]

  pub IsQuiet-IsTidy : (s : LiveLogs) → IsQuiet s → IsTidy ws_url project s
  IsQuiet-IsTidy s q = record {
    listens = ground arith;
    holds = ground arith;
    waits = IsWaiting-idle project s.ws_ref s.reconnect_timeout_ref s.timers q.idle;
  }

  pub open_socket-IsTidy :
      (s : LiveLogs) → IsQuiet s → IsTidy ws_url project (open_socket ws_url project s)
  unfolding open_socket
  open_socket-IsTidy s q = record {
    listens = ground arith;
    holds = ground arith;
    waits = IsWaiting-idle project (some s.next_id) s.reconnect_timeout_ref s.timers q.idle;
  }

  pub connect-IsTidy :
      (s : LiveLogs) → IsTidy ws_url project s → IsTidy ws_url project (connect ws_url project s)
  unfolding connect
  connect-IsTidy s h = elim (Bool-cases (truthy project)) [
    | inl e ↦ rw e (open_socket-IsTidy (cleanup_ws s) (cleanup_ws-IsQuiet s h))
    | inr e ↦ rw e h
  ]

-- What the two leave alone.
pub record Keeps (s t : LiveLogs) : Type 0 where
  pub messages : t.messages ≡ s.messages
  pub total_received : t.total_received ≡ s.total_received
  pub is_connected : t.is_connected ≡ s.is_connected
  pub is_streaming : t.is_streaming ≡ s.is_streaming
  pub is_streaming_ref : t.is_streaming_ref ≡ s.is_streaming_ref
  pub project_id : t.project_id ≡ s.project_id
  pub attempts : t.reconnect_attempts_ref ≡ s.reconnect_attempts_ref

pub cleanup_ws-Keeps : (s : LiveLogs) → Keeps s (cleanup_ws s)
unfolding cleanup_ws
cleanup_ws-Keeps s = ground arith

pub cleanup_ws-next_id : (s : LiveLogs) → (cleanup_ws s).next_id ≡ s.next_id
unfolding cleanup_ws
cleanup_ws-next_id s = ground arith

pub connect-Keeps : (ws_url project : String) (s : LiveLogs) → Keeps s (connect ws_url project s)
unfolding connect
connect-Keeps ws_url project s = ground (arith, cleanup_ws-Keeps s)

-- `connect` puts a socket in place unless there is no project.
pub connect-ws_ref :
    (ws_url project : String) (s : LiveLogs)
    → truthy project ≡ true
    → is_some (connect ws_url project s).ws_ref ≡ true
unfolding connect
connect-ws_ref ws_url project s h = ground arith
