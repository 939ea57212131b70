-- ===== src/Site/Origins.antt =====
-- Where an answer that a page's hook has seen comes from: from an operation that brought it.
use org_log.Prelude.{
  ◌≡◌, ◌⊎◌, inl, inr, refl, sym, subst, ap, String, true, Option, none, some, List, [], ◌∷◌, Has,
}
use org_log.Types.{LiveLogMessage, LogQuery, LogListResponse, LogAnalytics}
use org_log.Browser.Storage.{Storage}
use org_log.Queries.{QueryKey, use_logs, use_analytics}
use org_log.Queries.Observer.{Answered}
use org_log.Explorer.{filter_change, page_change, clear_filters}
use org_log.Shell.{visits}
use org_log.Shell as Shell
use org_log.Site.{
  Place, Site, shown_project, statistics_call, search_call, render, Op, in_shell, opens, changes,
  turns, clears, searched, analyzed, act, step, steps, opened,
}
use org_log.Site.Watched.{event-Answered, edited-same}

module _ (ws_url : String) (parse : String → Option LiveLogMessage) (trim : String → String)
    (to_iso : String → String) where
  -- The operations bring an answer of that kind for that key.
  abbrev pub Analyzed : QueryKey → LogAnalytics → List (Op ws_url parse trim to_iso) → Type 0
  Analyzed k a os =
      (id : String) × ((use_analytics id true).query_key ≡ k) × Has (analyzed id (some a)) os

  abbrev pub Searched : QueryKey → LogListResponse → List (Op ws_url parse trim to_iso) → Type 0
  Searched k d os =
      (q : LogQuery) × ((use_logs q true).query_key ≡ k) × Has (searched q (some d)) os

  act-Analyzed :
      (o : Op ws_url parse trim to_iso) (s : Site) (k : QueryKey) (a : LogAnalytics)
      → Answered k a (act ws_url parse trim to_iso o s).statistics
      → Answered k a s.statistics ⊎ Analyzed k a (o ∷ [])
  unfolding act
  act-Analyzed (in_shell visits) s k a h = inl h
  act-Analyzed (in_shell (Shell.in_app o)) s k a h = inl h
  act-Analyzed (in_shell (Shell.in_sidebar o)) s k a h = inl h
  act-Analyzed (in_shell (Shell.in_form o)) s k a h = inl h
  act-Analyzed (opens place) s k a h = inl h
  act-Analyzed (changes f v) s k a h =
      inl
        (subst (Answered k a) (edited-same (λ t. t.statistics) (filter_change f v) s (λ e. refl)) h)
  act-Analyzed (turns n) s k a h =
      inl (subst (Answered k a) (edited-same (λ t. t.statistics) (page_change n) s (λ e. refl)) h)
  act-Analyzed clears s k a h =
      inl (subst (Answered k a) (edited-same (λ t. t.statistics) clear_filters s (λ e. refl)) h)
  act-Analyzed (searched q reply) s k a h = inl h
  act-Analyzed (analyzed id none) s k a h = inl h
  act-Analyzed (analyzed id (some b)) s k a (inl (e, f)) =
      inr (id, e, inl (ap (λ x. analyzed id (some x)) (sym f)))
  act-Analyzed (analyzed id (some b)) s k a (inr h) = inl h

  act-Searched :
      (o : Op ws_url parse trim to_iso) (s : Site) (k : QueryKey) (d : LogListResponse)
      → Answered k d (act ws_url parse trim to_iso o s).searches
      → Answered k d s.searches ⊎ Searched k d (o ∷ [])
  unfolding act
  act-Searched (in_shell visits) s k d h = inl h
  act-Searched (in_shell (Shell.in_app o)) s k d h = inl h
  act-Searched (in_shell (Shell.in_sidebar o)) s k d h = inl h
  act-Searched (in_shell (Shell.in_form o)) s k d h = inl h
  act-Searched (opens place) s k d h = inl h
  act-Searched (changes f v) s k d h =
      inl (subst (Answered k d) (edited-same (λ t. t.searches) (filter_change f v) s (λ e. refl)) h)
  act-Searched (turns n) s k d h =
      inl (subst (Answered k d) (edited-same (λ t. t.searches) (page_change n) s (λ e. refl)) h)
  act-Searched clears s k d h =
      inl (subst (Answered k d) (edited-same (λ t. t.searches) clear_filters s (λ e. refl)) h)
  act-Searched (searched q none) s k d h = inl h
  act-Searched (searched q (some b)) s k d (inl (e, f)) =
      inr (q, e, inl (ap (λ x. searched q (some x)) (sym f)))
  act-Searched (searched q (some b)) s k d (inr h) = inl h
  act-Searched (analyzed id reply) s k d h = inl h

  steps-Analyzed :
      (os : List (Op ws_url parse trim to_iso)) (s : Site) (k : QueryKey) (a : LogAnalytics)
      → Answered k a (steps ws_url parse trim to_iso os s).statistics
      → Answered k a s.statistics ⊎ Analyzed k a os
  unfolding steps step render
  steps-Analyzed [] s k a h = inl h
  steps-Analyzed (o ∷ os) s k a h =
      elim (steps-Analyzed os (step ws_url parse trim to_iso o s) k a h) [
        | inl before ↦
            let t = act ws_url parse trim to_iso o s in
            elim (act-Analyzed o s k a (
              event-Answered (statistics_call t.place (shown_project t)) k a t.statistics before)) [
                | inl older ↦ inl older
                | inr (id, e, inl now) ↦ inr (id, e, inl now)
                | inr (id, e, inr never) ↦ absurd never
              ]
        | inr (id, e, later) ↦ inr (id, e, inr later)
      ]

  steps-Searched :
      (os : List (Op ws_url parse trim to_iso)) (s : Site) (k : QueryKey) (d : LogListResponse)
      → Answered k d (steps ws_url parse trim to_iso os s).searches
      → Answered k d s.searches ⊎ Searched k d os
  unfolding steps step render
  steps-Searched [] s k d h = inl h
  steps-Searched (o ∷ os) s k d h =
      elim (steps-Searched os (step ws_url parse trim to_iso o s) k d h) [
        | inl before ↦
            let t = act ws_url parse trim to_iso o s in
            elim (act-Searched o s k d (
              event-Answered (search_call to_iso t.place (shown_project t) t.explorer) k d
                t.searches before)) [
                  | inl older ↦ inl older
                  | inr (q, e, inl now) ↦ inr (q, e, inl now)
                  | inr (q, e, inr never) ↦ absurd never
                ]
        | inr (q, e, later) ↦ inr (q, e, inr later)
      ]

  -- From the first page on.
  pub opened-Analyzed :
      (os : List (Op ws_url parse trim to_iso)) (place : Place) (storage : Storage) (k : QueryKey)
      (a : LogAnalytics)
      → Answered k a
          (steps ws_url parse trim to_iso os
            (opened ws_url parse trim to_iso place storage)).statistics
      → Analyzed k a os
  unfolding render
  opened-Analyzed os place storage k a h =
      elim (steps-Analyzed os (opened ws_url parse trim to_iso place storage) k a h) [
        | inl before ↦ absurd (event-Answered (statistics_call place none) k a [] before)
        | inr found ↦ found
      ]

  pub opened-Searched :
      (os : List (Op ws_url parse trim to_iso)) (place : Place) (storage : Storage) (k : QueryKey)
      (d : LogListResponse)
      → Answered k d
          (steps ws_url parse trim to_iso os
            (opened ws_url parse trim to_iso place storage)).searches
      → Searched k d os
  unfolding render
  opened-Searched os place storage k d h =
      elim (steps-Searched os (opened ws_url parse trim to_iso place storage) k d h) [
        | inl before ↦ absurd before
        | inr found ↦ found
      ]
