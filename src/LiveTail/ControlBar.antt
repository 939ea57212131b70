-- ===== src/LiveTail/ControlBar.antt =====
-- The bar above the stream of frontend/src/app/dashboard/live/page.tsx: the state of the connection,
-- the cards of the levels, the filter, the buttons and the error banner.
pub mod Clicks
use org_log.Prelude.{
  ℕ, String, Bool, true, false, not, Option, none, some, List, [], ◌∷◌, truthy, str_eq, ◌||◌,
  if◌then◌else◌,
}
use org_log.Types.{LiveLogMessage, Project}
use org_log.Controls.{
  Select, select, level_options, StatusDot, status_dot, ButtonVariant, primary, secondary,
}
use org_log.Live.{LiveLogs, set_streaming}
use org_log.LiveTail.{
  message_stats, filtered_messages, toggle_filter, status, status_text, shows_reconnect,
}

pub data Icon : Type 0 where
  bug info alert_triangle alert_octagon : Icon

-- `levelIconMap[level] || levelIconMap.INFO`
unfoldable pub level_icon : String → Icon × String
level_icon level =
    if str_eq level "DEBUG"
    then (bug, "text-slate-400")
    else if str_eq level "WARNING"
    then (alert_triangle, "text-amber-400")
    else if str_eq level "ERROR"
    then (alert_octagon, "text-red-400")
    else if str_eq level "CRITICAL"
    then (alert_octagon, "text-pink-400")
    else (info, "text-blue-400")

-- `next_filter`: the filter after a click.
pub record LevelCard : Type 0 where
  pub level : String
  pub count : ℕ
  pub icon : Icon × String
  pub is_chosen : Bool
  pub next_filter : String

unfoldable pub level_card : String → String × ℕ → LevelCard
unfolding level_icon toggle_filter
level_card level_filter c = record {
  level = c.0;
  count = c.1;
  icon = level_icon c.0;
  is_chosen = str_eq level_filter c.0;
  next_filter = toggle_filter c.0 level_filter;
}

unfoldable pub level_cards : String → List (String × ℕ) → List LevelCard
level_cards level_filter [] = []
level_cards level_filter (c ∷ counts) = level_card level_filter c ∷ level_cards level_filter counts

-- `streams_next`: what a click on the button hands to `setStreaming`.
pub record ControlBar : Type 0 where
  pub tile : String
  pub dot : StatusDot
  pub text : String
  pub events : ℕ
  pub cards : List LevelCard
  pub filter : Select
  pub stream_button : ButtonVariant × String
  pub streams_next : Bool
  pub reconnect_button : Bool
  pub error : Option String
  pub stream : List LiveLogMessage

abbrev pub tile_of : LiveLogs → String
tile_of s =
    if s.is_connected
    then "bg-emerald-50"
    else if s.is_connecting
    then "bg-amber-50"
    else "bg-slate-100"

unfoldable pub control_bar : String → LiveLogs → ControlBar
unfolding status status_text shows_reconnect message_stats filtered_messages select
control_bar level_filter s = record {
  tile = tile_of s;
  dot = status_dot (status s) s.is_connected;
  text = status_text s;
  events = s.total_received;
  cards = level_cards level_filter (message_stats s.messages);
  filter = select "Filter" level_options level_filter;
  stream_button = if s.is_streaming then (secondary, "Pause") else (primary, "Resume");
  streams_next = not s.is_streaming;
  reconnect_button = shows_reconnect s;
  error = elim s.error [ none ↦ none | some e ↦ if truthy e then some e else none ];
  stream = filtered_messages level_filter s.messages;
}

-- The page asks for a project first.
unfoldable pub live_tail_page : Option Project → String → LiveLogs → Option ControlBar
unfolding control_bar
live_tail_page none level_filter s = none
live_tail_page (some p) level_filter s = some (control_bar level_filter s)
