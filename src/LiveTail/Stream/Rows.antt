-- ===== src/LiveTail/Stream/Rows.antt =====
-- Which message is expanded, and what happens to it when another arrives.
use org_log.Prelude.{
  subst, ==_self, ℕ, zero, suc, ◌+◌, ◌≡◌, refl, none, some, List, [], ◌∷◌, if◌then◌else◌, arith,
}
use org_log.Types.{LiveLogMessage}
use org_log.LiveTail.Stream.{Stream, click_row, Row, row, rows_from, rows}

-- The messages of the expanded rows.
abbrev pub expanded : List Row → List LiveLogMessage
expanded [] = []
expanded (r ∷ rs) = if r.is_expanded then r.message ∷ expanded rs else expanded rs

abbrev pub nth : ℕ → List LiveLogMessage → List LiveLogMessage
nth i [] = []
nth zero (m ∷ ms) = m ∷ []
nth (suc i) (m ∷ ms) = nth i ms

none_behind :
    (j i : ℕ) (ms : List LiveLogMessage) → expanded (rows_from (some j) (suc (j + i)) ms) ≡ []
unfolding rows_from row
none_behind j i [] = refl
none_behind j i (m ∷ ms) = ground (arith, none_behind j (suc i) ms)

expanded_from :
    (i k : ℕ) (ms : List LiveLogMessage) → expanded (rows_from (some (k + i)) k ms) ≡ nth i ms
unfolding rows_from row
expanded_from i k [] = refl
expanded_from zero k (m ∷ ms) = ground (arith, none_behind (k + 0) 0 ms)
expanded_from (suc i) k (m ∷ ms) = ground (arith, expanded_from i (suc k) ms)

expanded_at : (k : ℕ) (ms : List LiveLogMessage) → expanded (rows_from (some k) 0 ms) ≡ nth k ms
expanded_at k ms =
    subst (λ j. expanded (rows_from (some j) 0 ms) ≡ nth k ms) (omega arith) (expanded_from k 0 ms)

collapsed : (k : ℕ) (ms : List LiveLogMessage) → expanded (rows_from none k ms) ≡ []
unfolding rows_from row
collapsed k [] = refl
collapsed k (m ∷ ms) = collapsed (suc k) ms

-- From a stream with no row expanded, a click on row i expands exactly the message at i, if there is
-- one, and a second click on it collapses it again.
pub expanded-click_row :
    (i : ℕ) (s : Stream) (ms : List LiveLogMessage)
    → s.expanded_index ≡ none
    → (expanded (rows (click_row i s) ms) ≡ nth i ms)
      × (expanded (rows (click_row i (click_row i s)) ms) ≡ [])
unfolding rows click_row
expanded-click_row i s ms h = rw (h, ==_self i) (expanded_at i ms, collapsed 0 ms)

-- The expansion stays with the index, so that when a message arrives in front of the others, the
-- expanded row moves on to the message before: with row i + 1 expanded it was the message at i + 1,
-- and then is that which was at i; with row 0 expanded it then is the new message.
pub arrival_shifts :
    (i : ℕ) (s : Stream) (m : LiveLogMessage) (ms : List LiveLogMessage)
    → (expanded (rows (record s { expanded_index = some (suc i) }) ms) ≡ nth (suc i) ms)
      × (expanded (rows (record s { expanded_index = some (suc i) }) (m ∷ ms)) ≡ nth i ms)
      × (expanded (rows (record s { expanded_index = some 0 }) (m ∷ ms)) ≡ m ∷ [])
unfolding rows
arrival_shifts i s m ms =
    (expanded_at (suc i) ms, expanded_at (suc i) (m ∷ ms), expanded_at 0 (m ∷ ms))
