-- ===== src/Live/Outage.antt =====
-- A server that is down: every connection is closed before it opens. The waits grow to half a
-- minute, and the provider gives up after ten of them.
use native.Mathlib.Nat.{pow-suc}
use org_log.Prelude.{
  ℕ, zero, suc, ◌+◌, ◌*◌, ◌^◌, ◌≤◌, ◌<◌, min, ◌≡◌, refl, subst, String, true, false, Option, none,
  some, [], ◌∷◌, map, is_some, Option-cases, inl, inr, arith, truthy, ==_self,
}
use org_log.Types.{LiveLogMessage}
use org_log.Browser.{Timer, clear_timeout}
use org_log.Live.{LiveLogs, backoff, new_socket, on_close, on_timeout, max_reconnect_attempts}
use org_log.Live.Cleanup.{IsTidy, IsQuiet, connect-Keeps, connect-ws_ref}
use org_log.Live.Tidy.{waiting-some, finished}
use org_log.Live.Single.{handle-IsTidy}
use org_log.Live.Events.{closed, timed_out, deliver, fire, handle}

pow_pos : (n : ℕ) → 1 ≤ 2 ^ n
pow_pos zero = omega arith
pow_pos (suc n) = rw (pow-suc 2 n) (omega (arith, pow_pos n))

-- The wait before the next attempt is never under a second nor over half a minute, and doubles until
-- it reaches the half minute.
pub backoff_bounds :
    (n : ℕ)
    → (1000 ≤ backoff n) × (backoff n ≤ 30000) × (backoff (suc n) ≡ min (2 * backoff n) 30000)
backoff_bounds n = rw (pow-suc 2 n) (omega (arith, pow_pos n))

module _ (ws_url : String) (parse : String → Option LiveLogMessage) where
  -- The `close` event of the current socket.
  pub lose : LiveLogs → LiveLogs
  lose s = elim s.ws_ref [ none ↦ s | some k ↦ handle ws_url parse (closed k) s ]

  -- The pending timeout fires.
  pub wake : LiveLogs → LiveLogs
  wake s = elim s.reconnect_timeout_ref [ none ↦ s | some t ↦ handle ws_url parse (timed_out t) s ]

  -- So often a connection is lost and the wait before the next attempt passes.
  pub outage : ℕ → LiveLogs → LiveLogs
  outage zero s = s
  outage (suc n) s = outage n (wake (lose s))

  -- Streaming for a project, with a socket, after `n` failures.
  pub record IsUp (n : ℕ) (s : LiveLogs) : Type 0 where
    pub streaming : s.is_streaming_ref ≡ true
    pub project : truthy s.project_id ≡ true
    pub socket : is_some s.ws_ref ≡ true
    pub failures : s.reconnect_attempts_ref ≡ n

  lose_lem :
      (k : ℕ) (s : LiveLogs)
      → IsTidy ws_url s.project_id s
      → s.ws_ref ≡ some k
      → lose s ≡ on_close (new_socket ws_url k s.project_id) s
  unfolding lose handle deliver
  lose_lem k s t e = ground (arith, t.listens, ==_self k)

  wake_lem :
      (u : Timer) (s : LiveLogs)
      → s.reconnect_timeout_ref ≡ some u.id
      → s.timers ≡ u ∷ []
      → wake s ≡ on_timeout ws_url u s
  unfolding wake handle fire
  wake_lem u s e f = ground (arith, ==_self u.id)

  -- The timeout that `onclose` sets.
  abbrev next_try : LiveLogs → Timer
  next_try s = record {
    id = s.next_id;
    delay = backoff s.reconnect_attempts_ref;
    project_id = s.project_id;
  }

  record IsDown (n : ℕ) (s t : LiveLogs) : Type 0 where
    streaming : t.is_streaming_ref ≡ true
    project : t.project_id ≡ s.project_id
    failures : t.reconnect_attempts_ref ≡ suc n
    known : t.reconnect_timeout_ref ≡ some (next_try s).id
    pending : t.timers ≡ next_try s ∷ []

  lose-IsDown :
      (n k : ℕ) (s : LiveLogs)
      → IsTidy ws_url s.project_id s
      → IsUp n s
      → n < max_reconnect_attempts
      → s.ws_ref ≡ some k
      → IsDown n s (lose s)
  unfolding on_close
  lose-IsDown n k s t h lt e =
      ground (arith, lose_lem k s t, waiting-some s.project_id k s.reconnect_timeout_ref s.timers)

  wake-IsUp : (n : ℕ) (s t : LiveLogs) → IsUp n s → IsDown n s t → IsUp (suc n) (wake t)
  unfolding on_timeout
  wake-IsUp n s t h d =
      let t' : LiveLogs = record t { timers = clear_timeout (next_try s).id t.timers } in
      ground (
        arith,
        wake_lem (next_try s) t,
        connect-Keeps ws_url s.project_id t',
        connect-ws_ref ws_url s.project_id t',
      )

  -- One round of the outage: a further failure, and a new socket.
  round-IsUp :
      (n : ℕ) (s : LiveLogs)
      → IsTidy ws_url s.project_id s
      → IsUp n s
      → n < max_reconnect_attempts
      → IsUp (suc n) (wake (lose s))
  round-IsUp n s t h lt = elim (Option-cases s.ws_ref) [
    | inl e ↦ absurd (ground (arith, h.socket))
    | inr (k, e) ↦ wake-IsUp n s (lose s) h (lose-IsDown n k s t h lt e)
  ]

  lose-IsTidy :
      (s : LiveLogs) → IsTidy ws_url s.project_id s → IsTidy ws_url (lose s).project_id (lose s)
  unfolding lose
  lose-IsTidy s t = elim (Option-cases s.ws_ref) [
    | inl e ↦ rw (e, lose) t
    | inr (k, e) ↦ rw (e, lose) (handle-IsTidy ws_url parse (closed k) s t)
  ]

  wake-IsTidy :
      (s : LiveLogs) → IsTidy ws_url s.project_id s → IsTidy ws_url (wake s).project_id (wake s)
  unfolding wake
  wake-IsTidy s t = elim (Option-cases s.reconnect_timeout_ref) [
    | inl e ↦ rw (e, wake) t
    | inr (i, e) ↦ rw (e, wake) (handle-IsTidy ws_url parse (timed_out i) s t)
  ]

  round-IsTidy :
      (s : LiveLogs)
      → IsTidy ws_url s.project_id s
      → IsTidy ws_url (wake (lose s)).project_id (wake (lose s))
  round-IsTidy s t = wake-IsTidy (lose s) (lose-IsTidy s t)

  outage-IsUp :
      (n m : ℕ) (s : LiveLogs)
      → IsTidy ws_url s.project_id s
      → IsUp m s
      → n + m ≤ max_reconnect_attempts
      → IsUp (n + m) (outage n s) × IsTidy ws_url (outage n s).project_id (outage n s)
  unfolding outage
  outage-IsUp zero m s t h le = (subst (λ k. IsUp k s) (omega arith) h, t)
  outage-IsUp (suc n) m s t h le =
      let (up, tidy) =
        outage-IsUp n (suc m) (wake (lose s)) (round-IsTidy s t) (round-IsUp m s t h (omega arith))
          (omega arith) in
      (subst (λ k. IsUp k (outage n (wake (lose s)))) (omega arith) up, tidy)

  at_outage :
      (n : ℕ) (s : LiveLogs)
      → IsTidy ws_url s.project_id s
      → IsUp 0 s
      → n ≤ max_reconnect_attempts
      → IsUp n (outage n s) × IsTidy ws_url (outage n s).project_id (outage n s)
  at_outage n s t h le =
      let (up, tidy) = outage-IsUp n 0 s t h (omega arith) in
      (subst (λ k. IsUp k (outage n s)) (omega arith) up, tidy)

  lose-delay :
      (n : ℕ) (s : LiveLogs)
      → IsTidy ws_url s.project_id s
      → IsUp n s
      → n < max_reconnect_attempts
      → map (λ t. t.delay) (lose s).timers ≡ backoff n ∷ []
  lose-delay n s t h lt = elim (Option-cases s.ws_ref) [
    | inl e ↦ absurd (ground (arith, h.socket))
    | inr (k, e) ↦ rw ((lose-IsDown n k s t h lt e).pending, h.failures) refl
  ]

  lose-IsQuiet :
      (s : LiveLogs)
      → IsTidy ws_url s.project_id s
      → IsUp max_reconnect_attempts s
      → IsQuiet (lose s) × ((lose s).is_connected ≡ false)
  unfolding on_close
  lose-IsQuiet s t h = elim (Option-cases s.ws_ref) [
    | inl e ↦ absurd (ground (arith, h.socket))
    | inr (k, e) ↦ ground (
      arith,
      lose_lem k s t,
      waiting-some s.project_id k s.reconnect_timeout_ref s.timers,
      finished ws_url s.project_id k s t,
    )
  ]

  -- From a tidy state that streams for a project and has a socket, with no failure so far: after n
  -- failures in a row, for n under 10, the loss of the connection sets one timeout, of
  -- min (1000 * 2 ^ n) 30000 ms, and after the wait there is a socket again.
  pub outage-retries :
      (n : ℕ) (s : LiveLogs)
      → IsTidy ws_url s.project_id s
      → IsUp 0 s
      → n < max_reconnect_attempts
      → (map (λ t. t.delay) (lose (outage n s)).timers ≡ backoff n ∷ [])
        × (is_some (wake (lose (outage n s))).ws_ref ≡ true)
  outage-retries n s t h lt =
      let (up, tidy) = at_outage n s t h (omega arith) in
      (lose-delay n (outage n s) tidy up lt, (round-IsUp n (outage n s) tidy up lt).socket)

  -- From a tidy state that streams for a project and has a socket, with no failure so far: after 10
  -- failures in a row the next loss of the connection sets no timeout:
  -- no socket listens or is open, nothing is pending, and the provider is shown as disconnected.
  pub outage_gives_up :
      (s : LiveLogs)
      → IsTidy ws_url s.project_id s
      → IsUp 0 s
      → let t = lose (outage max_reconnect_attempts s) in IsQuiet t × (t.is_connected ≡ false)
  outage_gives_up s t h =
      let (up, tidy) = at_outage max_reconnect_attempts s t h (omega arith) in
      lose-IsQuiet (outage max_reconnect_attempts s) tidy up
