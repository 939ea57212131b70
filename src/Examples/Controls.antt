-- ===== src/Examples/Controls.antt =====
-- The filter form, the cards of the levels and the bars of the services on small data.
use mathlib.Core.List.{Perm}
use mathlib.Core.List.Perm
use org_log.Prelude.{ℕ, ◌≡◌, ◌↔◌, String, false, none, List, [], ◌∷◌, map, select, ◌==◌}
use org_log.Types.{LiveLogMessage}
use org_log.Explorer.{Field, search_field, level_field, initial, build_query}
use org_log.Explorer.FilterForm.{
  Op, changes, turns_page, clears, apply_all, filter_form, shown, last_typed, apply_all_lem,
}
use org_log.Live.{LiveLogs}
use org_log.Live as Live
use org_log.LiveTail.{message_stats}
use org_log.LiveTail.Bag.{message_stats-permuted}
use org_log.Analytics.Services.{chart_data, bar_of, IsDescending, chart_data_lem}
use org_log.Examples.{message}

abbrev to_iso : String → String
to_iso v = v

abbrev typed : List Op
typed =
    changes level_field "ERROR"
    ∷ turns_page 50
    ∷ clears
    ∷ changes search_field "time"
    ∷ changes search_field "timeout"
    ∷ []

apply_all_lem_example :
    ((g : Field) → shown g (filter_form (apply_all typed initial)) ≡ last_typed g typed "")
    × (((filter_form (apply_all typed initial)).clear_button ≡ false) ↔ (
        ((build_query to_iso "p1" (apply_all typed initial)).search_text ≡ none)
        × ((build_query to_iso "p1" (apply_all typed initial)).level ≡ none)
        × ((build_query to_iso "p1" (apply_all typed initial)).service ≡ none)
        × ((build_query to_iso "p1" (apply_all typed initial)).start_time ≡ none)
        × ((build_query to_iso "p1" (apply_all typed initial)).end_time ≡ none)))
apply_all_lem_example = apply_all_lem to_iso "p1" typed

abbrev failed : LiveLogMessage
failed = message "ERROR" "b"

abbrev noted : LiveLogMessage
noted = message "INFO" "a"

message_stats-permuted_example :
    message_stats (failed ∷ noted ∷ failed ∷ []) ≡ message_stats (noted ∷ failed ∷ failed ∷ [])
message_stats-permuted_example =
    message_stats-permuted (failed ∷ noted ∷ failed ∷ []) (noted ∷ failed ∷ failed ∷ [])
      (Perm.swap noted failed (failed ∷ []))

abbrev streaming : LiveLogs
streaming = record (Live.initial "p1") { messages = failed ∷ noted ∷ failed ∷ [] }

abbrev services : List (String × ℕ)
services = ("billing", 2) ∷ ("auth", 5) ∷ ("mail", 2) ∷ []

chart_data_lem_example :
    Perm (chart_data services) (map bar_of services)
    × IsDescending (chart_data services)
    × ((n : ℕ)
        → select (λ c. c.value == n) (chart_data services)
          ≡ select (λ c. c.value == n) (map bar_of services))
chart_data_lem_example = chart_data_lem services
