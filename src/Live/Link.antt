-- ===== src/Live/Link.antt =====
-- The provider's promise to its users: a link to one project that is off, up, or waiting for its next
-- attempt. What the browser holds, the handlers and the closures are forgotten: of the sockets and timeouts
-- there is only the name of the one that counts. The handlers implement it.
pub mod Refinement
use org_log.Prelude.{
  ℕ, suc, subst, ◌≡◌, ◌⊎◌, inl, inr, refl, String, Bool, true, false, not, ◌&&◌, Option, none, some,
  List, [], ◌∷◌, first, find, is_some, truthy, str_eq, bool_eq, ltb, ◌==◌, ==_self, if◌then◌else◌,
  arith, Bool-cases, Option-cases,
}
use org_log.Types.{LiveLogMessage}
use org_log.Browser.{Socket, Timer, listening, clear_timeout}
use org_log.Live.{
  LiveLogs, max_reconnect_attempts, cleanup_ws, connect, on_open, on_message, on_error, on_close,
  on_timeout, reconnect, clear_messages, set_streaming, pause, run_effect, render, mount,
  new_socket, initial,
}
use org_log.Live.Cleanup.{
  IsTidy, IsWaiting, IsQuiet-IsTidy, cleanup_ws-IsQuiet, cleanup_ws-Keeps, connect-Keeps,
  connect-ws_ref,
}
use org_log.Live.Tidy.{IsTidy-congr, fired, find-listening, waiting-some, find-waiting}
use org_log.Live.Single.{initial-IsTidy, handle-IsTidy, mount-IsTidy}
use org_log.Live.Events.{
  Event, opened, received, failed, closed, timed_out, user_reconnects, user_clears, user_streams,
  rendered, deliver, while_open, fire, handle, run,
}

-- `up k`: socket `k` is open or in the making; `waiting t`: timeout `t` will make the next one.
pub data Phase : Type 0 where
  off : Phase
  up waiting : ℕ → Phase

-- `streaming`: what the user has asked for, `rendered_streaming`: as of the last render; `next_id`: the
-- name of the next socket or timeout.
pub record Link : Type 0 where
  pub project : String
  pub streaming : Bool
  pub rendered_streaming : Bool
  pub failures : ℕ
  pub phase : Phase
  pub next_id : ℕ

abbrev pub phase_of : Option ℕ → List Timer → Phase
phase_of (some k) ts = up k
phase_of none [] = off
phase_of none (t ∷ ts) = waiting t.id

-- What the link shows of a state.
abbrev pub link_of : LiveLogs → Link
link_of s = record {
  project = s.project_id;
  streaming = s.is_streaming;
  rendered_streaming = s.is_streaming_ref;
  failures = s.reconnect_attempts_ref;
  phase = phase_of s.ws_ref s.timers;
  next_id = s.next_id;
}

abbrev pub is_up : ℕ → Phase → Bool
is_up k off = false
is_up k (up j) = j == k
is_up k (waiting t) = false

abbrev pub is_waiting : ℕ → Phase → Bool
is_waiting t off = false
is_waiting t (up k) = false
is_waiting t (waiting u) = u == t

-- The link goes up, with a new socket, unless there is no project.
abbrev pub raise : Link → Link → Link
raise otherwise l =
    if truthy l.project
    then record l { phase = up l.next_id; next_id = suc l.next_id }
    else otherwise

abbrev pub lost : Link → Link
lost l =
    if l.rendered_streaming && ltb l.failures max_reconnect_attempts
    then record l { phase = waiting l.next_id; failures = suc l.failures; next_id = suc l.next_id }
    else record l { phase = off }

abbrev pub asked : Bool → Link → Link
asked false l = record l { streaming = false; phase = off }
asked true l = elim l.phase [
  | up k ↦ record l { streaming = true }
  | off ↦ let l' : Link = record l { streaming = true; failures = 0 } in raise l' l'
  | waiting t ↦ let l' : Link = record l { streaming = true; failures = 0 } in raise l' l'
]

abbrev pub moved : String → Link → Link
moved q l =
    let l' : Link = record l { project = q; rendered_streaming = l.streaming } in
    let l'' : Link = record l' { phase = off } in
    if str_eq q l.project && bool_eq l.streaming l.rendered_streaming
    then l'
    else if l.streaming
    then raise l'' l''
    else l''

-- What an event does to the link. Those of another socket or timeout than the current do nothing.
abbrev pub advance : Event → Link → Link
advance (opened k) l = if is_up k l.phase then record l { failures = 0 } else l
advance (received k raw) l = l
advance (failed k) l = l
advance (closed k) l = if is_up k l.phase then lost l else l
advance (timed_out t) l = if is_waiting t l.phase then raise (record l { phase = off }) l else l
advance user_reconnects l = raise (record l { failures = 0 }) (record l { failures = 0 })
advance user_clears l = l
advance (user_streams b) l = asked b l
advance (rendered q) l = moved q l

-- The link that a provider starts with.
abbrev pub started : String → Link
started project =
    let l : Link = record {
      project = project;
      streaming = true;
      rendered_streaming = true;
      failures = 0;
      phase = off;
      next_id = 1;
    } in
    raise l l

abbrev pub advance_all : List Event → Link → Link
advance_all [] l = l
advance_all (e ∷ es) l = advance_all es (advance e l)
