-- ===== src/LiveTail/Stream.antt =====
-- frontend/src/components/logs/live-log-stream.tsx: the rows of the stream, one of which can be
-- expanded, by its index. The formatting of a time is a parameter; a trace id is kept whole, of which
-- the first eight characters are printed, and so are the entries of the metadata.
pub mod Rows
pub mod Scroll
use org_log.Prelude.{
  ℕ, zero, suc, String, Bool, true, false, not, ◌&&◌, Option, none, some, List, [], ◌∷◌, length,
  ltb, ◌==◌, str_eq, if◌then◌else◌,
}
use Prim.Native.String.{◌++◌ as join}
use org_log.Types.{LiveLogMessage}

pub record Stream : Type 0 where
  pub auto_scroll : Bool
  pub expanded_index : Option ℕ

-- `handleScroll`, with the element's `scrollTop`.
unfoldable pub handle_scroll : ℕ → Stream → Stream
handle_scroll scroll_top s = record s { auto_scroll = ltb scroll_top 10 }

-- "Jump to latest"; the element's `scrollTop` is set to 0.
unfoldable pub jump_to_latest : Stream → Stream
jump_to_latest s = record s { auto_scroll = true }

abbrev pub opt_eq : Option ℕ → ℕ → Bool
opt_eq none i = false
opt_eq (some j) i = j == i

-- `setExpandedIndex(isExpanded ? null : index)`
unfoldable pub click_row : ℕ → Stream → Stream
click_row index s = record s {
  expanded_index = if opt_eq s.expanded_index index then none else some index;
}

pub record LevelStyle : Type 0 where
  pub dot : String
  pub text : String
  pub bg : String
  pub glow : String

abbrev pub debug_style : LevelStyle
debug_style = record { dot = "bg-slate-400"; text = "text-slate-400"; bg = ""; glow = "" }

-- `levelConfig[level]`, undefined for a level that it does not name.
unfoldable pub level_config : String → Option LevelStyle
level_config level =
    if str_eq level "DEBUG"
    then some debug_style
    else if str_eq level "INFO"
    then some (record { dot = "bg-blue-400"; text = "text-blue-400"; bg = ""; glow = "" })
    else if str_eq level "WARNING"
    then some (record {
      dot = "bg-amber-400";
      text = "text-amber-400";
      bg = "bg-amber-500/[0.03]";
      glow = "border-l-2 border-l-amber-500/40";
    })
    else if str_eq level "ERROR"
    then some (record {
      dot = "bg-red-400";
      text = "text-red-400";
      bg = "bg-red-500/[0.04]";
      glow = "border-l-2 border-l-red-500/50";
    })
    else if str_eq level "CRITICAL"
    then some (record {
      dot = "bg-pink-400 animate-pulse";
      text = "text-pink-400 font-bold";
      bg = "bg-red-500/[0.06]";
      glow = "border-l-2 border-l-pink-500/60";
    })
    else none

-- `levelConfig[msg.level] || levelConfig.DEBUG`
unfoldable pub style_of : String → LevelStyle
unfolding level_config
style_of level = elim (level_config level) [ none ↦ debug_style | some style ↦ style ]

-- `msg.metadata && Object.keys(msg.metadata).length > 0`
unfoldable pub has_metadata : LiveLogMessage → Bool
has_metadata m = elim m.metadata [ none ↦ false | some entries ↦ ltb 0 (length entries) ]

-- The panel below an expanded row: the trace and the metadata.
pub record MetadataPanel : Type 0 where
  pub trace_id : String
  pub metadata : Option (List (String × String))

pub record Row : Type 0 where
  pub message : LiveLogMessage
  pub style : LevelStyle
  pub is_expanded : Bool
  pub has_toggle : Bool
  pub panel : Option MetadataPanel

unfoldable pub row : Option ℕ → LiveLogMessage → ℕ → Row
row expanded m index = record {
  message = m;
  style = style_of m.level;
  is_expanded = opt_eq expanded index;
  has_toggle = has_metadata m;
  panel =
      if opt_eq expanded index && has_metadata m
      then some (record { trace_id = m.trace_id; metadata = m.metadata })
      else none;
}

-- The texts of a row, from the left, and the class of its message.
unfoldable pub texts : (String → String) → Row → List String
texts format_timestamp_short r =
    format_timestamp_short r.message.timestamp
    ∷ r.message.level
    ∷ join "[" (join r.message.service "]")
    ∷ r.message.message
    ∷ []

unfoldable pub message_class : Row → String
message_class r = if r.is_expanded then "whitespace-pre-wrap break-all" else "truncate"

-- `messages.map((msg, index) => …)`
unfoldable pub rows_from : Option ℕ → ℕ → List LiveLogMessage → List Row
rows_from expanded index [] = []
rows_from expanded index (m ∷ ms) = row expanded m index ∷ rows_from expanded (suc index) ms

unfoldable pub rows : Stream → List LiveLogMessage → List Row
rows s messages = rows_from s.expanded_index 0 messages

-- The bar above the rows: the number of the messages, and if the button "Jump to latest" stands there.
pub record Bar : Type 0 where
  pub events : ℕ
  pub has_jump : Bool

-- `listening_for_events`: "Waiting for incoming log data...".
pub data Body : Type 0 where
  listening_for_events : Body
  stream_rows : List Row → Body

unfoldable pub live_log_stream : Stream → List LiveLogMessage → Bar × Body
unfolding rows
live_log_stream s [] = (record { events = 0; has_jump = not s.auto_scroll }, listening_for_events)
live_log_stream s (m ∷ ms) = (
  record { events = length (m ∷ ms); has_jump = not s.auto_scroll },
  stream_rows (rows s (m ∷ ms)),
)
