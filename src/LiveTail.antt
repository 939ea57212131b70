-- ===== src/LiveTail.antt =====
-- The live tail: frontend/src/app/dashboard/live/page.tsx over the state of the provider, and the
-- list of components/logs/live-log-stream.tsx.
pub mod Bag
pub mod Stats
pub mod Stream
pub mod ControlBar
use org_log.Prelude.{
  ℕ, ◌+◌, String, Bool, true, false, not, ◌&&◌, Option, none, some, List, [], ◌∷◌, length, select,
  ltb, str_eq, truthy, is_some, if◌then◌else◌,
}
use org_log.Types.{LiveLogMessage}
use org_log.Live.{LiveLogs}
pub use org_log.Controls.{Dot, online, warning, offline}

-- `counts`: an object used as a map from levels to numbers.
abbrev pub Counts : Type 0
Counts = List (String × ℕ)

-- `counts[level] || 0`
unfoldable pub count_of : String → Counts → ℕ
count_of level [] = 0
count_of level ((l, n) ∷ counts) = if str_eq l level then n else count_of level counts

-- `counts[level] = (counts[level] || 0) + 1`
unfoldable pub bump : String → Counts → Counts
bump level [] = (level, 1) ∷ []
bump level ((l, n) ∷ counts) =
    if str_eq l level then (l, n + 1) ∷ counts else (l, n) ∷ bump level counts

-- The loop over the messages.
unfoldable pub count_levels : List LiveLogMessage → Counts → Counts
count_levels [] counts = counts
count_levels (m ∷ ms) counts = count_levels ms (bump m.level counts)

abbrev pub ordered : List String
ordered = "CRITICAL" ∷ "ERROR" ∷ "WARNING" ∷ "INFO" ∷ "DEBUG" ∷ []

-- `.filter((lvl) => counts[lvl]).map((lvl) => ({ level: lvl, count: counts[lvl] }))`
unfoldable pub positive_counts : Counts → List String → List (String × ℕ)
positive_counts counts [] = []
positive_counts counts (level ∷ levels) =
    let rest = positive_counts counts levels in
    if ltb 0 (count_of level counts) then (level, count_of level counts) ∷ rest else rest

unfoldable pub message_stats : List LiveLogMessage → List (String × ℕ)
message_stats messages = positive_counts (count_levels messages []) ordered

unfoldable pub filtered_messages : String → List LiveLogMessage → List LiveLogMessage
filtered_messages level_filter messages =
    if not (truthy level_filter)
    then messages
    else select (λ m. str_eq m.level level_filter) messages

-- A click on the card of a level.
unfoldable pub toggle_filter : String → String → String
toggle_filter level level_filter = if str_eq level_filter level then "" else level

unfoldable pub status : LiveLogs → Dot
status s = if s.is_connected then online else if s.is_connecting then warning else offline

unfoldable pub status_text : LiveLogs → String
status_text s =
    if s.is_connected
    then "Connected"
    else if s.is_connecting
    then "Connecting..."
    else if s.is_streaming
    then "Disconnected"
    else "Paused"

-- The button that calls `reconnect`.
unfoldable pub shows_reconnect : LiveLogs → Bool
shows_reconnect s = s.is_streaming && not s.is_connected && not s.is_connecting

unfoldable pub shows_error : LiveLogs → Bool
shows_error s = is_some s.error
