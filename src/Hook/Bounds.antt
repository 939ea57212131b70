-- ===== src/Hook/Bounds.antt =====
-- The bounds that the hook keeps through every event.
use org_log.Prelude.{
  ℕ, ◌≤◌, String, Bool, Option, List, [], ◌∷◌, length, All, find, ◌==◌, arith, length-take,
  Option-cases, inl, inr,
}
use org_log.Types.{LiveLogMessage}
use org_log.Browser.{Socket, listening, clear_timeout}
use org_log.Hook.{
  Hook, limit_of, max_reconnect_attempts, clear_messages, connect, cleanup, on_open, on_message,
  on_error, on_close, reconnect, render, Event, opened, received, failed, closed, timed_out,
  user_reconnects, user_clears, rendered, deliver, while_open, fire, handle, run,
}

-- `most` bounds every `maxMessages` that is in use.
pub record IsBounded (most : ℕ) (s : Hook) : Type 0 where
  pub buffer : length s.messages ≤ most
  pub attempts : s.reconnect_attempts_ref ≤ max_reconnect_attempts
  pub latest : s.max_messages ≤ most
  pub closures : All (λ e. e.1 ≤ most) s.limits

limit_of-le :
    (most k : ℕ) (limits : List (ℕ × ℕ)) → All (λ e. e.1 ≤ most) limits → limit_of k limits ≤ most
unfolding limit_of
limit_of-le most k [] h = omega arith
limit_of-le most k ((j, n) ∷ limits) h = ground (arith, limit_of-le most k limits h.1)

-- A render whose `maxMessages` is at most `most`, or another event.
abbrev pub Asks : ℕ → Event → Type 0
Asks most (rendered enabled project limit) = limit ≤ most
Asks most _ = Unit {0}

module _ (most : ℕ) where
  connect-IsBounded :
      (ws_url project : String) (limit : ℕ) (s : Hook)
      → limit ≤ most
      → IsBounded most s
      → IsBounded most (connect ws_url project limit s)
  unfolding connect
  connect-IsBounded ws_url project limit s l h = ground arith

  cleanup-IsBounded : (s : Hook) → IsBounded most s → IsBounded most (cleanup s)
  unfolding cleanup
  cleanup-IsBounded s h = ground arith

  on_message-IsBounded :
      (parse : String → Option LiveLogMessage) (raw : String) (c : Socket) (s : Hook)
      → IsBounded most s
      → IsBounded most (on_message parse raw c s)
  unfolding on_message
  on_message-IsBounded parse raw c s h = elim (Option-cases (parse raw)) [
    | inl e ↦ rw (e, on_message) h
    | inr (m, e) ↦
        let n = limit_of c.id s.limits in
        rw (e, on_message)
          (record {
            buffer =
                omega (
                  arith,
                  length-take n (m ∷ s.messages),
                  limit_of-le most c.id s.limits h.closures,
                );
            attempts = h.attempts;
            latest = h.latest;
            closures = h.closures;
          })
  ]

  on_close-IsBounded : (c : Socket) (s : Hook) → IsBounded most s → IsBounded most (on_close c s)
  unfolding on_close
  on_close-IsBounded c s h = ground (arith, limit_of-le most c.id s.limits h.closures)

  deliver-IsBounded :
      (k : ℕ) (handler : Socket → Hook → Hook) (s : Hook)
      → ((c : Socket) → IsBounded most (handler c s))
      → IsBounded most s
      → IsBounded most (deliver k handler s)
  unfolding deliver
  deliver-IsBounded k handler s step h =
      elim (Option-cases (find (λ c. c.id == k) (listening s.sockets))) [
        | inl e ↦ rw (e, deliver) h
        | inr (c, e) ↦ rw (e, deliver) (step c)
      ]

module _ (most : ℕ) (ws_url : String) (parse : String → Option LiveLogMessage) where
  fire-IsBounded : (t : ℕ) (s : Hook) → IsBounded most s → IsBounded most (fire ws_url t s)
  unfolding fire
  fire-IsBounded t s h = elim (Option-cases (find (λ u. u.id == t) s.timers)) [
    | inl e ↦ rw (e, fire) h
    | inr (u, e) ↦
        rw (e, fire)
          (connect-IsBounded most ws_url u.project_id (limit_of u.id s.limits)
            (record s { timers = clear_timeout u.id s.timers })
            (limit_of-le most u.id s.limits h.closures)
            (record {
              buffer = h.buffer;
              attempts = h.attempts;
              latest = h.latest;
              closures = h.closures;
            }))
  ]

  render-IsBounded :
      (enabled : Bool) (project : String) (limit : ℕ) (s : Hook)
      → limit ≤ most
      → IsBounded most s
      → IsBounded most (render ws_url enabled project limit s)
  unfolding render
  render-IsBounded enabled project limit s l h = ground arith

  handle-IsBounded :
      (e : Event) (s : Hook)
      → Asks most e
      → IsBounded most s
      → IsBounded most (handle ws_url parse e s)
  unfolding handle while_open on_open on_error clear_messages reconnect
  handle-IsBounded (opened k) s a h =
      deliver-IsBounded most k (while_open on_open) s (λ c. ground arith) h
  handle-IsBounded (received k raw) s a h =
      deliver-IsBounded most k (λ c. while_open (on_message parse raw c) c) s
        (λ c. ground (arith, on_message-IsBounded most parse raw c s)) h
  handle-IsBounded (failed k) s a h =
      deliver-IsBounded most k (λ _ t. on_error t) s (λ c. ground arith) h
  handle-IsBounded (closed k) s a h =
      deliver-IsBounded most k on_close s (λ c. on_close-IsBounded most c s h) h
  handle-IsBounded (timed_out t) s a h = fire-IsBounded t s h
  handle-IsBounded user_reconnects s a h = ground arith
  handle-IsBounded user_clears s a h = ground arith
  handle-IsBounded (rendered enabled project limit) s a h =
      render-IsBounded enabled project limit s a h

  -- Through any sequence of events, in any order, in which no render asks for a `maxMessages` above
  -- `most`, from a state within the bounds: the buffer stays within `most`, also while connections of
  -- earlier renders deliver, and the number of attempts within 5.
  pub run-IsBounded :
      (es : List Event) (s : Hook)
      → All (Asks most) es
      → IsBounded most s
      → IsBounded most (run ws_url parse es s)
  unfolding run
  run-IsBounded [] s a h = h
  run-IsBounded (e ∷ es) s (a, b) h =
      run-IsBounded es (handle ws_url parse e s) b (handle-IsBounded e s a h)
