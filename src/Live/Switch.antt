-- ===== src/Live/Switch.antt =====
-- What the provider shows while it changes from one project's stream to another's.
use org_log.Prelude.{ℕ, refl, ◌≡◌, ◌≢◌, String, true, some, [], ◌∷◌, truthy, eq_iff, arith}
use org_log.Browser.{listening, held}
use org_log.Live.{LiveLogs, render, run_effect, cleanup_ws, connect, open_socket, new_socket}
use org_log.Live.Cleanup.{IsTidy, IsQuiet-IsTidy, cleanup_ws-IsQuiet, cleanup_ws-Keeps}
use org_log.LiveTail.{online, status, status_text}

module _ (ws_url : String) where
  -- A render with another project closes what there is and opens a socket.
  render-other :
      (q : String) (s : LiveLogs)
      → s.is_streaming ≡ true
      → truthy q ≡ true
      → q ≢ s.project_id
      → render ws_url q s
        ≡ open_socket ws_url q (
            cleanup_ws
              (cleanup_ws (record s { project_id = q; is_streaming_ref = s.is_streaming })))
  unfolding render run_effect connect
  render-other q s b h n =
      let k = cleanup_ws-Keeps (record s { project_id = q; is_streaming_ref = s.is_streaming }) in
      ground (arith, eq_iff q s.project_id, k.is_streaming, k.project_id)

  -- The old connection is gone, and one to the new project is in the making.
  abbrev pub Connects : String → LiveLogs → Type 0
  Connects q t =
      (k : ℕ) × (listening t.sockets ≡ new_socket ws_url k q ∷ [])
      × (held t.sockets ≡ new_socket ws_url k q ∷ [])
      × (t.ws_ref ≡ some k)
      × (t.is_connecting ≡ true)

  pub render-Connects :
      (q : String) (s : LiveLogs)
      → IsTidy ws_url s.project_id s
      → s.is_streaming ≡ true
      → truthy q ≡ true
      → q ≢ s.project_id
      → Connects q (render ws_url q s)
  unfolding open_socket
  render-Connects q s tidy b h n =
      let t : LiveLogs = record s { project_id = q; is_streaming_ref = s.is_streaming } in
      let tidy' : IsTidy ws_url s.project_id t = record {
        listens = tidy.listens;
        holds = tidy.holds;
        waits = tidy.waits;
      } in
      let quiet = cleanup_ws-IsQuiet ws_url s.project_id t tidy' in
      let again =
        cleanup_ws-IsQuiet ws_url q (cleanup_ws t) (IsQuiet-IsTidy ws_url q (cleanup_ws t) quiet) in
      rw (render-other q s b h n) (
        (cleanup_ws (cleanup_ws t)).next_id,
        ground (arith, again.silent),
        ground (arith, again.released),
        refl,
        refl,
      )

  -- From a tidy state that streams, shown as connected: a render with another project leaves one
  -- connection, which is in the making, to the new project; the live page shows "Connected"; and the
  -- messages and the failed attempts of the former project are those of the new one.
  pub render_keeps_status :
      (q : String) (s : LiveLogs)
      → IsTidy ws_url s.project_id s
      → s.is_connected ≡ true
      → s.is_streaming ≡ true
      → truthy q ≡ true
      → q ≢ s.project_id
      → let t = render ws_url q s in
        ((k : ℕ) × (listening t.sockets ≡ new_socket ws_url k q ∷ []))
        × (t.is_connecting ≡ true)
        × (status t ≡ online)
        × (status_text t ≡ "Connected")
        × (t.messages ≡ s.messages)
        × (t.reconnect_attempts_ref ≡ s.reconnect_attempts_ref)
  unfolding open_socket status status_text
  render_keeps_status q s tidy c b h n =
      let (i, listens, holds, ref, connecting) = render-Connects q s tidy b h n in
      let t : LiveLogs = record s { project_id = q; is_streaming_ref = s.is_streaming } in
      let k = cleanup_ws-Keeps t in
      let l = cleanup_ws-Keeps (cleanup_ws t) in
      (
        (i, listens),
        connecting,
        rw (render-other q s b h n) (ground (arith, k.is_connected, l.is_connected)),
        rw (render-other q s b h n) (ground (arith, k.is_connected, l.is_connected)),
        rw (render-other q s b h n) (ground (arith, k.messages, l.messages)),
        rw (render-other q s b h n) (ground (arith, k.attempts, l.attempts)),
      )
