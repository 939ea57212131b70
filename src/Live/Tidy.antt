-- ===== src/Live/Tidy.antt =====
-- Each handler of the provider keeps it tidy.
use org_log.Prelude.{
  ℕ, ◌≡◌, refl, String, Bool, true, false, Option, none, some, List, [], ◌∷◌, ◌==◌, find, arith,
  ==_self, ==_iff, ◌⊎◌, is_some, Option-cases, Bool-cases, inl, inr,
}
use org_log.Browser.{Socket, Timer, finish, listening, held, clear_timeout}
use org_log.Browser.Sockets.{listening-finish, held-finish}
use org_log.Live.{LiveLogs, cleanup_ws, new_socket, on_close, on_timeout, set_streaming, pause}
use org_log.Live.Cleanup.{IsWaiting, IsTidy, cleanup_ws-IsQuiet, connect-IsTidy, IsQuiet-IsTidy}
use org_log.Live.Events.{deliver, fire}

pub waiting-some :
    (project : String) (k : ℕ) (ref : Option ℕ) (ts : List Timer)
    → IsWaiting project (some k) ref ts
    → ts ≡ []
waiting-some project k ref [] h = refl
waiting-some project k ref (t ∷ []) h = cc
waiting-some project k ref (t ∷ u ∷ ts) h = absurd h

IsWaiting-cleared :
    (project : String) (ws ref : Option ℕ) (t : ℕ) (ts : List Timer)
    → IsWaiting project ws ref ts
    → IsWaiting project ws ref (clear_timeout t ts)
IsWaiting-cleared project ws ref t [] h = h
IsWaiting-cleared project ws ref t (u ∷ []) h = elim (Bool-cases (u.id == t)) [
  | inl e ↦ rw e tt
  | inr e ↦ rw e h
]
IsWaiting-cleared project ws ref t (u ∷ v ∷ ts) h = absurd h

-- The closure of a pending timeout is the current project's.
pub find-waiting :
    (project : String) (ws ref : Option ℕ) (t : ℕ) (u : Timer) (ts : List Timer)
    → IsWaiting project ws ref ts
    → find (λ v. v.id == t) ts ≡ some u
    → u.project_id ≡ project
find-waiting project ws ref t u [] h e = cc
find-waiting project ws ref t u (v ∷ []) h e = ground arith
find-waiting project ws ref t u (v ∷ w ∷ ts) h e = absurd h

module _ (ws_url project : String) where
  -- Only the current socket's events arrive.
  pub find-listening :
      (k : ℕ) (s : LiveLogs)
      → IsTidy ws_url project s
      → (find (λ c. c.id == k) (listening s.sockets) ≡ none)
        ⊎ ((s.ws_ref ≡ some k)
            × (find (λ c. c.id == k) (listening s.sockets) ≡ some (new_socket ws_url k project)))
  find-listening k s h = elim (Option-cases s.ws_ref) [
    | inl e ↦ inl (ground (arith, h.listens))
    | inr (j, e) ↦ ground (arith, h.listens, ==_iff j k)
  ]

  pub deliver-IsTidy :
      (k : ℕ) (handler : Socket → LiveLogs → LiveLogs) (s : LiveLogs)
      → ((s.ws_ref ≡ some k) → IsTidy ws_url project (handler (new_socket ws_url k project) s))
      → IsTidy ws_url project s
      → IsTidy ws_url project (deliver k handler s)
  unfolding deliver
  deliver-IsTidy k handler s step h = elim (find-listening k s h) [
    | inl e ↦ rw (e, deliver) h
    | inr (e, f) ↦ rw (f, deliver) (step e)
  ]

  pub IsTidy-congr :
      (s t : LiveLogs)
      → t.sockets ≡ s.sockets
      → t.ws_ref ≡ s.ws_ref
      → t.timers ≡ s.timers
      → t.reconnect_timeout_ref ≡ s.reconnect_timeout_ref
      → IsTidy ws_url project s
      → IsTidy ws_url project t
  IsTidy-congr s t a b c d h = record {
    listens = ground arith;
    holds = ground arith;
    waits = rw (b, c, d) h.waits;
  }

  pub finished :
      (k : ℕ) (s : LiveLogs)
      → IsTidy ws_url project s
      → s.ws_ref ≡ some k
      → (listening (finish k s.sockets) ≡ []) × (held (finish k s.sockets) ≡ [])
  finished k s h e =
      ground (
        arith,
        h.listens,
        h.holds,
        listening-finish k s.sockets,
        held-finish k s.sockets,
        ==_self k,
      )

  pub on_close-IsTidy :
      (k : ℕ) (s : LiveLogs)
      → IsTidy ws_url project s
      → s.ws_ref ≡ some k
      → IsTidy ws_url project (on_close (new_socket ws_url k project) s)
  unfolding on_close
  on_close-IsTidy k s h e =
      ground (arith, finished k s h e, waiting-some project k s.reconnect_timeout_ref s.timers)

  -- A timeout that has fired leaves the provider tidy.
  pub fired :
      (t : Timer) (s : LiveLogs)
      → IsTidy ws_url project s
      → IsTidy ws_url project (record s { timers = clear_timeout t.id s.timers })
  fired t s h = record {
    listens = h.listens;
    holds = h.holds;
    waits = IsWaiting-cleared project s.ws_ref s.reconnect_timeout_ref t.id s.timers h.waits;
  }

  pub on_timeout-IsTidy :
      (t : Timer) (s : LiveLogs)
      → t.project_id ≡ project
      → IsTidy ws_url project s
      → IsTidy ws_url project (on_timeout ws_url t s)
  unfolding on_timeout
  on_timeout-IsTidy t s e h = rw e (connect-IsTidy ws_url project _ (fired t s h))

  pause-IsTidy : (s : LiveLogs) → IsTidy ws_url project s → IsTidy ws_url project (pause s)
  unfolding pause
  pause-IsTidy s h =
      IsTidy-congr (cleanup_ws s) (pause s) refl refl refl refl
        (IsQuiet-IsTidy ws_url project _ (cleanup_ws-IsQuiet ws_url project s h))

  pub set_streaming-IsTidy :
      (b : Bool) (s : LiveLogs)
      → s.project_id ≡ project
      → IsTidy ws_url project s
      → IsTidy ws_url project (set_streaming ws_url b s)
  unfolding set_streaming
  set_streaming-IsTidy true s e h = elim (Bool-cases (is_some s.ws_ref)) [
    | inl f ↦ rw f (IsTidy-congr s _ refl refl refl refl h)
    | inr f ↦ rw (f, e) (connect-IsTidy ws_url project _ (IsTidy-congr s _ refl refl refl refl h))
  ]
  set_streaming-IsTidy false s e h =
      pause-IsTidy (record s { is_streaming = false }) (IsTidy-congr s _ refl refl refl refl h)

  pub fire-IsTidy :
      (t : ℕ) (s : LiveLogs) → IsTidy ws_url project s → IsTidy ws_url project (fire ws_url t s)
  unfolding fire
  fire-IsTidy t s h = elim (Option-cases (find (λ u. u.id == t) s.timers)) [
    | inl e ↦ rw (e, fire) h
    | inr (u, e) ↦
        rw (e, fire)
          (on_timeout-IsTidy u s
            (find-waiting project s.ws_ref s.reconnect_timeout_ref t u s.timers h.waits e) h)
  ]
