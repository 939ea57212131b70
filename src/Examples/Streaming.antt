-- ===== src/Examples/Streaming.antt =====
-- Runs of the live provider and of the hook: connections, losses, messages, switches.
use org_log.Prelude.{
  inr, ℕ, ◌≡◌, ◌≢◌, eq_iff, refl, true, false, none, some, List, [], ◌∷◌, map, is_some, arith,
}
use org_log.Browser.{held, listening}
use org_log.Live.{LiveLogs, mount, new_socket, backoff, max_reconnect_attempts, render}
use org_log.Live.Events.{
  Event, opened, received, failed, closed, timed_out, user_reconnects, user_clears, user_streams,
  rendered, run,
}
use org_log.Live.Cleanup.{IsTidy, IsQuiet}
use org_log.Live.Single.{mount-run-IsTidy}
use org_log.Live.Progress.{IsLive, mount-run-IsLive}
use org_log.Live.Buffer.{IsWindow, history, mount-run-IsWindow}
use org_log.Live.Outage.{IsUp, lose, wake, outage, outage-retries, outage_gives_up}
use org_log.Live.Switch.{render_keeps_status}
use org_log.LiveTail.{online, status, status_text}
use org_log.Hook.{Hook, cleanup}
use org_log.Hook as Hook
use org_log.Hook.Bounds.{IsBounded, run-IsBounded}
use org_log.Hook.Leaks.{IsStreaming, reconnect_leaks, switch_revives}
use org_log.Examples.{ws_url, parse}

-- Two messages, the second malformed, a loss, a retry, a switch, a clear and a pause.
abbrev session : List Event
session =
    opened 1
    ∷ received 1 "hello"
    ∷ received 1 "{"
    ∷ closed 1
    ∷ timed_out 2
    ∷ opened 3
    ∷ rendered "p2"
    ∷ failed 4
    ∷ user_reconnects
    ∷ user_clears
    ∷ user_streams false
    ∷ []

abbrev ended : LiveLogs
ended = run ws_url parse session (mount ws_url "p1")

mount-run-IsTidy_example : IsTidy ws_url ended.project_id ended
mount-run-IsTidy_example = mount-run-IsTidy ws_url parse "p1" session

mount-run-IsLive_example : IsLive ended
mount-run-IsLive_example = mount-run-IsLive ws_url parse "p1" session

mount-run-IsWindow_example : IsWindow (history ws_url parse session (mount ws_url "p1") []) ended
mount-run-IsWindow_example = mount-run-IsWindow ws_url parse "p1" session

-- Connected to a project, with no failure so far.
abbrev streaming : LiveLogs
streaming = record {
  messages = [];
  is_connected = true;
  is_connecting = false;
  is_streaming = true;
  error = none;
  total_received = 0;
  ws_ref = some 1;
  reconnect_timeout_ref = none;
  reconnect_attempts_ref = 0;
  is_streaming_ref = true;
  project_id = "p1";
  sockets = new_socket ws_url 1 "p1" ∷ [];
  timers = [];
  next_id = 2;
}

streaming-IsTidy : IsTidy ws_url "p1" streaming
streaming-IsTidy = record { listens = refl; holds = refl; waits = tt }

streaming-IsUp : IsUp ws_url parse 0 streaming
streaming-IsUp = record { streaming = refl; project = refl; socket = refl; failures = refl }

outage-retries_example :
    (map (λ t. t.delay) (lose ws_url parse (outage ws_url parse 3 streaming)).timers
      ≡ backoff 3 ∷ [])
    × (is_some (wake ws_url parse (lose ws_url parse (outage ws_url parse 3 streaming))).ws_ref
        ≡ true)
outage-retries_example =
    outage-retries ws_url parse 3 streaming streaming-IsTidy streaming-IsUp (omega arith)

outage_gives_up_example :
    IsQuiet (lose ws_url parse (outage ws_url parse max_reconnect_attempts streaming))
    × ((lose ws_url parse (outage ws_url parse max_reconnect_attempts streaming)).is_connected
        ≡ false)
outage_gives_up_example = outage_gives_up ws_url parse streaming streaming-IsTidy streaming-IsUp

p2-streaming : "p2" ≢ streaming.project_id
p2-streaming e = absurd (ground (arith, (eq_iff "p2" "p1").1 e))

render_keeps_status_example :
    ((k : ℕ) × (listening (render ws_url "p2" streaming).sockets ≡ new_socket ws_url k "p2" ∷ []))
    × ((render ws_url "p2" streaming).is_connecting ≡ true)
    × (status (render ws_url "p2" streaming) ≡ online)
    × (status_text (render ws_url "p2" streaming) ≡ "Connected")
    × ((render ws_url "p2" streaming).messages ≡ [])
    × ((render ws_url "p2" streaming).reconnect_attempts_ref ≡ 0)
render_keeps_status_example =
    render_keeps_status ws_url "p2" streaming streaming-IsTidy refl refl refl p2-streaming

-- The hook, connected to a project, with its default buffer.
abbrev hooked : Hook
hooked = record {
  messages = [];
  is_connected = true;
  is_connecting = false;
  error = none;
  ws_ref = some 1;
  reconnect_timeout_ref = none;
  reconnect_attempts_ref = 0;
  enabled_ref = true;
  project_id = "p1";
  max_messages = 500;
  has_callback = false;
  called_back = [];
  sockets = new_socket ws_url 1 "p1" ∷ [];
  timers = [];
  limits = (1, 500) ∷ [];
  next_id = 2;
}

hooked-IsStreaming : IsStreaming ws_url 1 hooked
unfolding Hook.limit_of
hooked-IsStreaming = record {
  enabled = refl;
  project = refl;
  socket = refl;
  current = refl;
  idle = refl;
  fresh = omega arith;
  steady = refl;
  limit = refl;
}

-- The buffer is made smaller while a message waits, then a connection of the former render is made again.
abbrev hook_session : List Hook.Event
hook_session =
    Hook.received 1 "hello"
    ∷ Hook.received 1 "{"
    ∷ Hook.rendered true "p1" 20
    ∷ Hook.closed 1
    ∷ Hook.timed_out 3
    ∷ Hook.received 4 "again"
    ∷ Hook.user_reconnects
    ∷ []

run-IsBounded_example : IsBounded 500 (Hook.run ws_url parse hook_session hooked)
run-IsBounded_example = run-IsBounded 500 ws_url parse hook_session hooked (omega arith) (record {
  buffer = omega arith;
  attempts = omega arith;
  latest = omega arith;
  closures = omega arith;
})

abbrev reconnected : Hook
reconnected =
    Hook.run ws_url parse (Hook.user_reconnects ∷ Hook.closed 1 ∷ Hook.timed_out 3 ∷ []) hooked

reconnect_leaks_example :
    (held reconnected.sockets ≡ new_socket ws_url 4 "p1" ∷ new_socket ws_url 2 "p1" ∷ [])
    × (listening reconnected.sockets ≡ new_socket ws_url 4 "p1" ∷ new_socket ws_url 2 "p1" ∷ [])
    × (reconnected.ws_ref ≡ some 4)
reconnect_leaks_example = reconnect_leaks ws_url parse 1 hooked hooked-IsStreaming

fewer : 20 ≢ hooked.max_messages
fewer e = absurd (omega (arith, e))

-- The same project with another `maxMessages`.
abbrev switched : Hook
switched =
    Hook.run ws_url parse (Hook.rendered true "p1" 20 ∷ Hook.closed 1 ∷ Hook.timed_out 3 ∷ [])
      hooked

switch_revives_example :
    (held switched.sockets ≡ new_socket ws_url 4 "p1" ∷ new_socket ws_url 2 "p1" ∷ [])
    × (listening switched.sockets ≡ new_socket ws_url 4 "p1" ∷ new_socket ws_url 2 "p1" ∷ [])
    × (switched.ws_ref ≡ some 4)
    × (Hook.limit_of 4 switched.limits ≡ 500)
    × (Hook.limit_of 2 switched.limits ≡ 20)
switch_revives_example =
    switch_revives ws_url parse 1 "p1" 20 hooked hooked-IsStreaming refl (inr fewer)
