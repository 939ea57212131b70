-- ===== src/Hook/Leaks.antt =====
-- What closing a socket without detaching its handlers leads to.
use org_log.Prelude.{
  ℕ, ◌+◌, ◌<◌, ◌≡◌, ◌∙◌, String, true, Option, some, [], ◌∷◌, arith, truthy, eq_iff, ◌≢◌, ◌⊎◌,
  Option-cases, inl, inr,
}
use org_log.Types.{LiveLogMessage}
use org_log.Browser.{close, listening, held}
use org_log.Live.{new_socket}
use org_log.Hook.{
  Hook, limit_of, connect, on_close, reconnect, render, closed, timed_out, user_reconnects,
  rendered, deliver, fire, handle, run, cleanup,
}

-- Enabled for a project, with one open socket, the current one, and no pending
-- timeout, after no failure since the socket opened.
pub record IsStreaming (ws_url : String) (k : ℕ) (s : Hook) : Type 0 where
  pub enabled : s.enabled_ref ≡ true
  pub project : truthy s.project_id ≡ true
  pub socket : s.sockets ≡ new_socket ws_url k s.project_id ∷ []
  pub current : s.ws_ref ≡ some k
  pub idle : s.timers ≡ []
  pub fresh : k < s.next_id
  pub steady : s.reconnect_attempts_ref ≡ 0
  pub limit : limit_of k s.limits ≡ s.max_messages

-- Socket j is the current one, for q, and socket k, for p and with `limit`, is closing beside it.
pub record IsReplaced (ws_url : String) (j k limit : ℕ) (p q : String) (s : Hook) : Type 0 where
  pub on : s.enabled_ref ≡ true
  pub named : truthy p ≡ true
  pub two :
      s.sockets ≡ new_socket ws_url j q ∷ record (new_socket ws_url k p) { closing = true } ∷ []
  pub current : s.ws_ref ≡ some j
  pub idle : s.timers ≡ []
  pub next : s.next_id ≡ j + 1
  pub steady : s.reconnect_attempts_ref ≡ 0
  pub limited : limit_of k s.limits ≡ limit

module _ (ws_url : String) (parse : String → Option LiveLogMessage) where
  -- What the late `close` event of an old socket, and then the timeout that it sets, lead to.
  late_close :
      (j k limit : ℕ) (p q : String) (s : Hook)
      → k < j
      → IsReplaced ws_url j k limit p q s
      → let t = run ws_url parse (closed k ∷ timed_out (j + 1) ∷ []) s in
        let two = new_socket ws_url (j + 2) p ∷ new_socket ws_url j q ∷ [] in
        (held t.sockets ≡ two)
        × (listening t.sockets ≡ two)
        × (t.ws_ref ≡ some (j + 2))
        × (limit_of (j + 2) t.limits ≡ limit)
        × (limit_of j t.limits ≡ limit_of j s.limits)
  unfolding run handle connect deliver on_close fire close limit_of
  late_close j k limit p q s lt h = ground arith

  reconnected-IsReplaced :
      (k : ℕ) (s : Hook)
      → IsStreaming ws_url k s
      → IsReplaced ws_url s.next_id k s.max_messages s.project_id s.project_id (reconnect ws_url s)
  unfolding reconnect connect close limit_of
  reconnected-IsReplaced k s h = ground arith

  -- From a state that streams on socket k: if `reconnect` is called, then the old socket's `close`
  -- event arrives, then the timeout that it sets fires, the hook holds two open connections for the
  -- project, both of them listening, and refers to the newer one only.
  pub reconnect_leaks :
      (k : ℕ) (s : Hook)
      → IsStreaming ws_url k s
      → let t = run ws_url parse (user_reconnects ∷ closed k ∷ timed_out (s.next_id + 1) ∷ []) s in
        let two =
          new_socket ws_url (s.next_id + 2) s.project_id
          ∷ new_socket ws_url s.next_id s.project_id
          ∷ [] in
        (held t.sockets ≡ two) × (listening t.sockets ≡ two) × (t.ws_ref ≡ some (s.next_id + 2))
  unfolding run handle
  reconnect_leaks k s h =
      let p = s.project_id in
      let (holds, listens, ref, old, new) =
        late_close s.next_id k s.max_messages p p (reconnect ws_url s) h.fresh
          (reconnected-IsReplaced k s h) in
      (holds, listens, ref)

  -- A render with other options cleans up and connects anew.
  render_anew :
      (q : String) (n : ℕ) (s : Hook)
      → truthy q ≡ true
      → (q ≢ s.project_id) ⊎ (n ≢ s.max_messages)
      → render ws_url true q n s
        ≡ connect ws_url q n
            (cleanup (record s { project_id = q; enabled_ref = true; max_messages = n }))
  unfolding render
  render_anew q n s e (inl ne) = ground (arith, eq_iff q s.project_id)
  render_anew q n s e (inr ne) = ground arith

  switched-IsReplaced :
      (k : ℕ) (q : String) (n : ℕ) (s : Hook)
      → IsStreaming ws_url k s
      → truthy q ≡ true
      → let t =
          connect ws_url q n
            (cleanup (record s { project_id = q; enabled_ref = true; max_messages = n })) in
        IsReplaced ws_url s.next_id k s.max_messages s.project_id q t
        × (limit_of s.next_id t.limits ≡ n)
  unfolding connect cleanup close limit_of
  switched-IsReplaced k q n s h e = elim (Option-cases s.reconnect_timeout_ref) [
    | inl f ↦ ground arith
    | inr (t, f) ↦ ground arith
  ]

  -- From a state that streams on socket k: if the hook is rendered with another project or another
  -- `maxMessages`, then the old socket's `close` event arrives, then the timeout that it sets fires, the
  -- hook holds open connections of both renders, both of them listening, each with the project and
  -- the `maxMessages` of its own, and refers to that of the old render.
  pub switch_revives :
      (k : ℕ) (q : String) (n : ℕ) (s : Hook)
      → IsStreaming ws_url k s
      → truthy q ≡ true
      → (q ≢ s.project_id) ⊎ (n ≢ s.max_messages)
      → let t =
          run ws_url parse (rendered true q n ∷ closed k ∷ timed_out (s.next_id + 1) ∷ []) s in
        let two =
          new_socket ws_url (s.next_id + 2) s.project_id ∷ new_socket ws_url s.next_id q ∷ [] in
        (held t.sockets ≡ two)
        × (listening t.sockets ≡ two)
        × (t.ws_ref ≡ some (s.next_id + 2))
        × (limit_of (s.next_id + 2) t.limits ≡ s.max_messages)
        × (limit_of s.next_id t.limits ≡ n)
  unfolding run handle
  switch_revives k q n s h e ne =
      let (replaced, latest) = switched-IsReplaced k q n s h e in
      let (holds, listens, ref, old, new) =
        late_close s.next_id k s.max_messages s.project_id q _ h.fresh replaced in
      rw (render_anew q n s e ne) (holds, listens, ref, old, new ∙ latest)

  -- From a state that streams on socket k: if the hook is unmounted, so that its cleanup runs, then
  -- the socket's `close` event arrives, then the timeout that it sets fires, a new connection is open
  -- that nothing will close.
  pub unmount_leaks :
      (k : ℕ) (s : Hook)
      → IsStreaming ws_url k s
      → held (run ws_url parse (closed k ∷ timed_out s.next_id ∷ []) (cleanup s)).sockets
        ≡ new_socket ws_url (s.next_id + 1) s.project_id ∷ []
  unfolding run handle cleanup connect deliver on_close fire close
  unmount_leaks k s h = elim (Option-cases s.reconnect_timeout_ref) [
    | inl e ↦ ground arith
    | inr (t, e) ↦ ground arith
  ]
