-- ===== src/Examples/Pages.antt =====
-- The explorer, the table and the live page on small lists.
use org_log.Prelude.{
  ℕ, ◌<◌, ◌≡◌, ◌↔◌, refl, String, true, none, List, [], ◌∷◌, Has, truthy, if◌then◌else◌, arith,
  length,
}
use org_log.Types.{LiveLogMessage}
use org_log.Config.{page_size}
use org_log.Api.{number, append_params}
use org_log.Api.Endpoints.{search_params}
use org_log.Explorer.{Explorer, build_query}
use org_log.Explorer.Pagination.{pagination}
use org_log.Explorer.Paging.{Clicks, IsPage, Shows, Clicks-Shows}
use org_log.Explorer.Filters.{sent_text, sent_time, append_params-build_query}
use org_log.LiveTail.{message_stats, filtered_messages, ordered}
use org_log.LiveTail.Stats.{count_level, mem-message_stats}
use org_log.LiveTail.Stream.{Stream, handle_scroll, jump_to_latest, click_row}
use org_log.LiveTail.Stream.Scroll.{Panel, mounted, follow, arrival_follows}
use org_log.LiveTail.Stream.Scroll as Scroll
use org_log.Live.{push}
use org_log.Examples.{message}

Clicks-Shows_example :
    Clicks 120 50 0 100 ↔ ((k : ℕ) × IsPage 120 50 k 100 × Shows 120 50 k (pagination 120 50 100))
Clicks-Shows_example = Clicks-Shows 120 50 100 (omega arith) (omega arith)

-- A conversion that knows one time.
abbrev to_iso : String → String
to_iso v = if truthy v then "2024-01-01T10:00:00.000Z" else v

to_iso-truthy : (v : String) → truthy v ≡ true → truthy (to_iso v) ≡ true
to_iso-truthy v h = rw h refl

abbrev filtered : Explorer
filtered = record {
  search_text = "timeout";
  level = "ERROR";
  service = "";
  start_time = "2024-01-01T10:00";
  end_time = "";
  offset = 50;
}

append_params-build_query_example :
    append_params (search_params (build_query to_iso "p1" filtered))
    ≡ sent_text "project_id" "p1" (
        sent_text "service" "" (
          sent_text "level" "ERROR" (
            sent_time to_iso "start_time" "2024-01-01T10:00" (
              sent_time to_iso "end_time" "" (
                sent_text "search_text" "timeout"
                  (("limit", number page_size) ∷ ("offset", number 50) ∷ []))))))
append_params-build_query_example = append_params-build_query to_iso to_iso-truthy "p1" filtered

abbrev messages : List LiveLogMessage
messages = message "ERROR" "b" ∷ message "INFO" "a" ∷ message "ERROR" "c" ∷ []

abbrev card : String × ℕ
card = ("ERROR", 2)

mem-message_stats_example :
    (Has card (message_stats messages)
      ↔ (Has "ERROR" ordered × (count_level "ERROR" messages ≡ 2) × (0 < 2)))
    × (length (filtered_messages "ERROR" messages)
        ≡ (if truthy "ERROR" then count_level "ERROR" messages else length messages))
mem-message_stats_example = mem-message_stats "ERROR" 2 messages

abbrev folded : Stream
folded = record { auto_scroll = true; expanded_index = none }

-- Three messages, the second arriving while the user has moved away, the third after a click on the button,
-- whose animation is under way.
abbrev moves : List Scroll.Op
moves =
    Scroll.renders 1
    ∷ Scroll.scrolls 120
    ∷ Scroll.renders 2
    ∷ Scroll.jumps
    ∷ Scroll.clicks 0
    ∷ Scroll.moves 60
    ∷ Scroll.moves 4
    ∷ Scroll.renders 3
    ∷ Scroll.scrolls 6
    ∷ []

abbrev moved : Panel
moved = Scroll.apply_all moves (mounted 0)

abbrev arrived : Panel
arrived = Scroll.apply (Scroll.renders (length (push (message "DEBUG" "d") messages))) moved

moved-count : moved.count ≡ length messages
unfolding Scroll.apply_all Scroll.apply handle_scroll jump_to_latest click_row follow
moved-count = refl

arrival_follows_example : Scroll.Arrives (length messages) moved arrived
arrival_follows_example =
    arrival_follows moves 0 (message "DEBUG" "d") messages moved-count (omega arith)
