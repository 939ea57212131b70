-- ===== src/Site/Offset.antt =====
-- A change of the project under a later page of the explorer: logs/page.tsx keeps its offset.
use org_log.Prelude.{
  ℕ, zero, suc, ◌≤◌, ◌≡◌, ◌≢◌, ◌∙◌, refl, ap, subst, String, true, false, Option, some, List, [],
  ◌∷◌, length, take, arith,
}
use org_log.Types.{LiveLogMessage, LogEntry, LogQuery, LogListResponse, LogAnalytics, Project}
use org_log.Config.{page_size}
use org_log.Queries.{use_logs}
use org_log.Queries.Observer.{Result, Event, current, IsDocumented}
use org_log.Explorer.{Explorer, no_logs_found, has_active_filters, build_query, view, summary}
use org_log.Shell.{visits}
use org_log.Shell as Shell
use org_log.Site.{
  Place, at_logs, Site, shown_project, search_call, render, in_shell, searched, act, step,
}
use org_log.Site.Watched.{IsWatched, key_of, step-IsWatched, shown-IsWhole}
use org_log.Site.Rows.{
  shows_logs, logs_query, rows_shown, rows_at, explorer_rows, page_shown, settled-rows,
}

-- `xs.slice(n)`
abbrev pub drop : ℕ → List LogEntry → List LogEntry
drop zero xs = xs
drop (suc n) [] = []
drop (suc n) (x ∷ xs) = drop n xs

-- What the API's documentation says of a search, where `find` gives the entries that match a query: their
-- number, and the page of them that starts behind `offset`.
pub record IsPaged (find : LogQuery → List LogEntry) (answer : LogQuery → LogListResponse)
    : Type 0 where
  pub total : (q : LogQuery) → (answer q).total ≡ length (find q)
  pub page :
      (q : LogQuery) (limit offset : ℕ)
      → q.limit ≡ some limit
      → q.offset ≡ some offset
      → (answer q).logs ≡ take limit (drop offset (find q))

drop_all : (n : ℕ) (xs : List LogEntry) → length xs ≤ n → drop n xs ≡ []
drop_all zero [] h = refl
drop_all zero (x ∷ xs) h = absurd (omega arith)
drop_all (suc n) [] h = refl
drop_all (suc n) (x ∷ xs) h = drop_all n xs (omega arith)

take_nil : (n : ℕ) → ◌≡◌ {A = List LogEntry} (take n []) []
take_nil zero = refl
take_nil (suc n) = refl

module _ (find : LogQuery → List LogEntry) (answer : LogQuery → LogListResponse)
    (paged : IsPaged find answer) (to_iso : String → String) where
  past_end :
      (id : String) (e : Explorer)
      → has_active_filters e ≡ false
      → (answer (build_query to_iso id e)).total ≤ e.offset
      → let d = answer (build_query to_iso id e) in
        (view (some d) false false e ≡ no_logs_found false)
        × (summary (some d) false e ≡ some (d.total, false))
  unfolding build_query view summary
  past_end id e idle past =
      let q = build_query to_iso id e in
      let empty : (answer q).logs ≡ [] =
        paged.page q _ e.offset refl refl
        ∙ ap (take page_size)
            (drop_all e.offset (find q) (subst (λ n. n ≤ e.offset) (paged.total q) past))
        ∙ take_nil page_size in
      (rw (empty, idle) refl, rw idle refl)

  pair_eq :
      {x y : Place} {e f : Explorer} → x ≡ y → e ≡ f → ◌≡◌ {A = Place × Explorer} (x, e) (y, f)
  pair_eq h k = cc (h, k)

  module _ (to_fixed : ℕ → ℕ → ℕ → ℕ) (format_timestamp_short : String → String)
      (format_minute_bucket : String → String) (ws_url : String)
      (parse : String → Option LiveLogMessage) (trim : String → String)
      (search : List (Event LogListResponse) → Result LogListResponse)
      (statistics : List (Event LogAnalytics) → Result LogAnalytics)
      (search_doc : IsDocumented search) (statistics_doc : IsDocumented statistics) where
    -- What the explorer watches.
    asks_for :
        (t : Site) (p : Project)
        → IsWatched ws_url parse trim to_iso t
        → t.place ≡ at_logs
        → shown_project t ≡ some p
        → current t.searches ≡ some (use_logs (build_query to_iso p.id t.explorer) true).query_key
    asks_for t p w place shown =
        w.searches
        ∙ ap (λ x. key_of (search_call to_iso t.place x t.explorer)) shown
        ∙ ap (λ x. key_of (search_call to_iso x (some p) t.explorer)) place

    kept :
        (o : Shell.Op ws_url parse trim) (s : Site)
        → o ≢ visits
        → (step ws_url parse trim to_iso (in_shell o) s).shell.app.is_mounted ≡ true
        → let t = step ws_url parse trim to_iso (in_shell o) s in
          (t.place ≡ s.place) × (t.explorer ≡ s.explorer)
    unfolding step act render
    kept visits s n m = absurd (n refl)
    kept (Shell.in_app o) s n m = (refl, rw m refl)
    kept (Shell.in_sidebar o) s n m = (refl, rw m refl)
    kept (Shell.in_form o) s n m = (refl, rw m refl)

    -- The explorer `t` searches the project `p` as the explorer `e` does, and shows of the answer a number
    -- and nothing else.
    abbrev pub Overshoots : Site → Project → Explorer → Type 0
    Overshoots t p e =
        let q = build_query to_iso p.id e in
        let a = answer q in
        let found = step ws_url parse trim to_iso (searched q (some a)) t in
        (t.explorer ≡ e)
        × (current t.searches ≡ some (use_logs q true).query_key)
        × (rows_shown (
              page_shown to_fixed format_timestamp_short format_minute_bucket search statistics
                found)
            ≡ explorer_rows (record { found = some (a.total, false); body = no_logs_found false }))

    rows_past :
        (p : Project) (e : Explorer)
        → has_active_filters e ≡ false
        → (answer (build_query to_iso p.id e)).total ≤ e.offset
        → rows_at to_fixed format_timestamp_short format_minute_bucket at_logs
            (answer (build_query to_iso p.id e))
            e
          ≡ explorer_rows (record {
            found = some ((answer (build_query to_iso p.id e)).total, false);
            body = no_logs_found false;
          })
    rows_past p e idle past = let (v, n) = past_end p.id e idle past in rw (v, n) refl

    -- The answer to the query that a page watches, with its place and filters named.
    answered :
        (t : Site) (p : Project) (d : LogListResponse) (place : Place) (e : Explorer)
        → shows_logs place ≡ true
        → t.place ≡ place
        → t.explorer ≡ e
        → shown_project t ≡ some p
        → t.shell.app.is_mounted ≡ true
        → current t.searches ≡ some (use_logs (logs_query to_iso place p e) true).query_key
        → rows_shown (
            page_shown to_fixed format_timestamp_short format_minute_bucket search statistics
              (step ws_url parse trim to_iso (searched (logs_query to_iso place p e) (some d)) t))
          ≡ rows_at to_fixed format_timestamp_short format_minute_bucket place d e
    answered t p d place e b here same shown m at =
        subst
          (λ x.
            current t.searches ≡ some (use_logs (logs_query to_iso x.0 p x.1) true).query_key
            → rows_shown (
                page_shown to_fixed format_timestamp_short format_minute_bucket search statistics (
                  step ws_url parse trim to_iso (searched (logs_query to_iso x.0 p x.1) (some d))
                    t))
              ≡ rows_at to_fixed format_timestamp_short format_minute_bucket x.0 d x.1)
          (pair_eq here same)
          (settled-rows to_fixed format_timestamp_short format_minute_bucket ws_url parse trim
            to_iso search statistics search_doc statistics_doc t p d (ap shows_logs here ∙ b) shown
            m)
          at

    overshoots :
        (t : Site) (p : Project) (e : Explorer)
        → t.place ≡ at_logs
        → t.explorer ≡ e
        → shown_project t ≡ some p
        → IsWatched ws_url parse trim to_iso t
        → has_active_filters e ≡ false
        → (answer (build_query to_iso p.id e)).total ≤ e.offset
        → Overshoots t p e
    overshoots t p e place same shown w idle past =
        let (m, app, sidebar) = shown-IsWhole ws_url t p w.whole shown in
        let a = answer (build_query to_iso p.id e) in
        let at = asks_for t p w place shown in
        let now : current t.searches ≡ some (use_logs (build_query to_iso p.id e) true).query_key =
          subst
            (λ x. current t.searches ≡ some (use_logs (build_query to_iso p.id x) true).query_key)
            same at in
        (same, now, answered t p a at_logs e refl place same shown m now ∙ rows_past p e idle past)

    -- The explorer shows logs of a project, without filters, and something in the shell makes another project
    -- the current one, which has no more logs than the offset of the page that is open. What the
    -- explorer has asked for is the page of the old project with that offset, and what it asks for
    -- then is the page of the new one with the same offset. Once it has the answer it shows the number of the
    -- new project's logs and, in place of a table with pages to go back to, that no logs are found.
    pub switch_keeps_offset :
        (o : Shell.Op ws_url parse trim) (s : Site) (old p : Project)
        → IsWatched ws_url parse trim to_iso s
        → s.place ≡ at_logs
        → shown_project s ≡ some old
        → o ≢ visits
        → shown_project (step ws_url parse trim to_iso (in_shell o) s) ≡ some p
        → has_active_filters s.explorer ≡ false
        → (answer (build_query to_iso p.id s.explorer)).total ≤ s.explorer.offset
        → (current s.searches
            ≡ some (use_logs (build_query to_iso old.id s.explorer) true).query_key)
          × Overshoots (step ws_url parse trim to_iso (in_shell o) s) p s.explorer
    switch_keeps_offset o s old p w place was n shown idle past =
        let t = step ws_url parse trim to_iso (in_shell o) s in
        let watched = step-IsWatched ws_url parse trim to_iso (in_shell o) s w in
        let (m, app, sidebar) = shown-IsWhole ws_url t p watched.whole shown in
        let (here, same) = kept o s n m in
        (
          asks_for s old w place was,
          overshoots t p s.explorer (here ∙ place) same shown watched idle past,
        )
