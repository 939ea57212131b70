-- ===== src/Table.antt =====
-- frontend/src/components/logs/log-table.tsx: the table of the explorer, one row of which can be
-- expanded, by the id of its entry, and the copy button of the expanded row. The JSON of an entry is
-- printed by a parameter; the clipboard is the last text written to it.
pub mod Rows
pub mod Details
use org_log.Prelude.{
  ℕ, String, Bool, true, false, Option, none, some, List, [], ◌∷◌, map, opt_str_eq, if◌then◌else◌,
}
use org_log.Types.{LogEntry}

pub record LogTable : Type 0 where
  pub expanded_id : Option String

unfoldable pub toggle_expand : String → LogTable → LogTable
toggle_expand id s = record { expanded_id = if opt_str_eq s.expanded_id id then none else some id }

pub record Row : Type 0 where
  pub log : LogEntry
  pub is_expanded : Bool

-- A table that loads shows eight placeholders, any other a row for each entry.
pub data View : Type 0 where
  placeholders : ℕ → View
  rows : List Row → View

unfoldable pub row : LogTable → LogEntry → Row
row s log = record { log = log; is_expanded = opt_str_eq s.expanded_id log.id }

unfoldable pub log_rows : LogTable → List LogEntry → List Row
unfolding row
log_rows s [] = []
log_rows s (log ∷ logs) = row s log ∷ log_rows s logs

unfoldable pub view : LogTable → List LogEntry → Bool → View
view s logs is_loading = if is_loading then placeholders 8 else rows (log_rows s logs)

pub record LogDetailRow : Type 0 where
  pub copied : Bool
  pub clipboard : Option String
  pub timeouts : List ℕ

-- `handleCopy`
unfoldable pub handle_copy : (LogEntry → String) → LogEntry → LogDetailRow → LogDetailRow
handle_copy stringify log s = record {
  copied = true;
  clipboard = some (stringify log);
  timeouts = 2000 ∷ s.timeouts;
}

-- The first of its timeouts.
unfoldable pub reset_copied : LogDetailRow → LogDetailRow
reset_copied s = elim s.timeouts [ [] ↦ s | t ∷ ts ↦ record s { copied = false; timeouts = ts } ]
