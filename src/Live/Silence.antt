-- ===== src/Live/Silence.antt =====
-- A provider that was cleaned up hears nothing any more.
use org_log.Prelude.{ℕ, ◌≡◌, refl, ap, String, Option, none, List, [], ◌∷◌, All, find, ◌==◌}
use org_log.Types.{LiveLogMessage}
use org_log.Browser.{Socket, Timer, listening}
use org_log.Live.{LiveLogs}
use org_log.Live.Cleanup.{IsQuiet}
use org_log.Live.Events.{
  Event, opened, received, failed, closed, timed_out, user_reconnects, user_clears, user_streams,
  rendered, deliver, fire, handle, run,
}

-- The events that the browser brings about: of sockets and timeouts.
abbrev pub IsFromBrowser : Event → Type 0
IsFromBrowser (opened k) = Unit {0}
IsFromBrowser (received k raw) = Unit {0}
IsFromBrowser (failed k) = Unit {0}
IsFromBrowser (closed k) = Unit {0}
IsFromBrowser (timed_out t) = Unit {0}
IsFromBrowser _ = ⊥

deliver-quiet :
    (k : ℕ) (handler : Socket → LiveLogs → LiveLogs) (s : LiveLogs)
    → listening s.sockets ≡ []
    → deliver k handler s ≡ s
unfolding deliver
deliver-quiet k handler s h = rw (h, deliver) refl

module _ (ws_url : String) (parse : String → Option LiveLogMessage) where
  handle-quiet :
      (e : Event) (s : LiveLogs) → IsFromBrowser e → IsQuiet s → handle ws_url parse e s ≡ s
  unfolding handle fire
  handle-quiet (opened k) s b h = deliver-quiet k _ s h.silent
  handle-quiet (received k raw) s b h = deliver-quiet k _ s h.silent
  handle-quiet (failed k) s b h = deliver-quiet k _ s h.silent
  handle-quiet (closed k) s b h = deliver-quiet k _ s h.silent
  handle-quiet (timed_out t) s b h =
      let gone : find (λ u. u.id == t) s.timers ≡ none =
        ap (find (λ (u : Timer). u.id == t)) h.idle in
      rw (gone, fire) refl
  handle-quiet user_reconnects s b h = absurd b
  handle-quiet user_clears s b h = absurd b
  handle-quiet (user_streams c) s b h = absurd b
  handle-quiet (rendered q) s b h = absurd b

  -- No event of the browser changes a quiet state.
  pub run-quiet :
      (es : List Event) (s : LiveLogs)
      → All IsFromBrowser es
      → IsQuiet s
      → run ws_url parse es s ≡ s
  unfolding run
  run-quiet [] s b h = refl
  run-quiet (e ∷ es) s (b, bs) h = rw (handle-quiet e s b h) (run-quiet es s bs h)
