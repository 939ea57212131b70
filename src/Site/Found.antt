-- ===== src/Site/Found.antt =====
-- Which search the answer belongs to that the page of the explorer is handed.
use org_log.Prelude.{◌≡◌, ◌∙◌, ◌⊎◌, inl, inr, ap, String, true, Option, some, List, Has, Bool-cases}
use org_log.Types.{LiveLogMessage, LogListResponse, LogQuery, Project}
use org_log.Browser.Storage.{Storage}
use org_log.Queries.{use_logs, use_logs_inj}
use org_log.Queries.Observer.{Result, Event, IsDocumented}
use org_log.Queries.Shown.{observe-IsAnswer}
use org_log.Explorer.{build_query}
use org_log.Site.{Place, at_logs, shown_project, search_call, Op, searched, steps, opened}
use org_log.Site.Watched.{IsWatched, key_of, steps-IsWatched, opened-IsWatched}
use org_log.Site.Origins.{opened-Searched}

module _ (ws_url : String) (parse : String → Option LiveLogMessage) (trim : String → String)
    (to_iso : String → String) (search : List (Event LogListResponse) → Result LogListResponse)
    (documented : IsDocumented search) where
  -- Whatever is done in the shell and on its pages, in any order from the first page load on, and however
  -- the requests are answered: what `useLogs` hands to the explorer was an answer to a search that
  -- was made; and, unless the library marks it as a placeholder, it was to the search for the current
  -- project with the filters and the offset that the page has now.
  pub found-IsAnswer :
      (os : List (Op ws_url parse trim to_iso)) (place : Place) (storage : Storage) (p : Project)
      (d : LogListResponse)
      → let s = steps ws_url parse trim to_iso os (opened ws_url parse trim to_iso place storage) in
        s.place ≡ at_logs
        → shown_project s ≡ some p
        → (search s.searches).value ≡ some d
        → (q : LogQuery) × Has (searched q (some d)) os
          × (((search s.searches).is_placeholder_data ≡ true)
              ⊎ (q ≡ build_query to_iso p.id s.explorer))
  found-IsAnswer os place storage p d there shown value =
      let s = steps ws_url parse trim to_iso os (opened ws_url parse trim to_iso place storage) in
      let w : IsWatched ws_url parse trim to_iso s =
        steps-IsWatched ws_url parse trim to_iso os _
          (opened-IsWatched ws_url parse trim to_iso place storage) in
      let (k, was, own) = observe-IsAnswer search documented s.searches d value in
      let (q, key, found) = opened-Searched ws_url parse trim to_iso os place storage k d was in
      let now : key_of (search_call to_iso s.place (shown_project s) s.explorer)
          ≡ some (use_logs (build_query to_iso p.id s.explorer) true).query_key =
        ap (λ x. key_of (search_call to_iso x (shown_project s) s.explorer)) there
        ∙ ap (λ x. key_of (search_call to_iso at_logs x s.explorer)) shown in
      (
        q,
        found,
        elim (Bool-cases (search s.searches).is_placeholder_data) [
          | inl kept ↦ inl kept
          | inr real ↦ inr (
              use_logs_inj q (build_query to_iso p.id s.explorer) true true
                (cc (key, own real, w.searches, now)))
        ],
      )
