-- ===== src/Explorer/Filters.antt =====
-- What the filters of the page send to the server.
use org_log.Prelude.{
  ◌≡◌, ◌↔◌, refl, String, true, false, none, some, List, [], ◌∷◌, truthy, if◌then◌else◌, arith,
}
use org_log.Config.{page_size}
use org_log.Api.{Param, text, number, append_params}
use org_log.Api.Endpoints.{search_params}
use org_log.Explorer.{
  Explorer, Field, initial, filter_change, clear_filters, has_active_filters, build_query,
}

-- A parameter that is left out where its text is empty.
abbrev pub sent_text : String → String → List (String × Param) → List (String × Param)
sent_text key v rest = if truthy v then (key, text v) ∷ rest else rest

-- A parameter whose text is converted first.
abbrev pub sent_time :
    (String → String) → String → String → List (String × Param) → List (String × Param)
sent_time to_iso key v rest = if truthy v then (key, text (to_iso v)) ∷ rest else rest

module _ (to_iso : String → String)
    (to_iso-truthy : (v : String) → truthy v ≡ true → truthy (to_iso v) ≡ true) where
  -- The query of the search request, for a conversion of times that gives no empty text: each of
  -- the project, the service, the level, the two times and the text, if it is not empty, then the
  -- page size and the offset, also an offset of 0.
  pub append_params-build_query :
      (project_id : String) (s : Explorer)
      → append_params (search_params (build_query to_iso project_id s))
        ≡ sent_text "project_id" project_id (
            sent_text "service" s.service (
              sent_text "level" s.level (
                sent_time to_iso "start_time" s.start_time (
                  sent_time to_iso "end_time" s.end_time (
                    sent_text "search_text" s.search_text
                      (("limit", number page_size) ∷ ("offset", number s.offset) ∷ []))))))
  unfolding append_params search_params build_query
  append_params-build_query project_id s =
      ground (arith, to_iso-truthy s.start_time, to_iso-truthy s.end_time)

-- "Clear filters" is offered exactly when a filter is sent; it takes the page back to its first state;
-- and every change of a filter goes back to the first page.
pub has_active_filters_lem :
    (to_iso : String → String) (project_id : String) (s : Explorer)
    → ((has_active_filters s ≡ false) ↔ (
        let q = build_query to_iso project_id s in
        (q.search_text ≡ none)
        × (q.level ≡ none)
        × (q.service ≡ none)
        × (q.start_time ≡ none)
        × (q.end_time ≡ none)))
      × (clear_filters s ≡ initial)
      × ((f : Field) (v : String)
          → (build_query to_iso project_id (filter_change f v s)).offset ≡ some 0)
unfolding has_active_filters build_query clear_filters filter_change
has_active_filters_lem to_iso project_id s = (ground arith, refl, λ f v. refl)
