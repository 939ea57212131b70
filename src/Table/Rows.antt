-- ===== src/Table/Rows.antt =====
-- Which entries of the table are expanded.
use org_log.Prelude.{
  ◌≡◌, ◌↔◌, ◌≢◌, String, true, Option, none, some, List, [], ◌∷◌, Has, opt_str_eq, if◌then◌else◌,
  arith, eq_iff,
}
use org_log.Types.{LogEntry}
use org_log.Table.{LogTable, toggle_expand, Row, row, log_rows}

-- The entries of the expanded rows.
abbrev pub expanded : List Row → List LogEntry
expanded [] = []
expanded (r ∷ rs) = if r.is_expanded then r.log ∷ expanded rs else expanded rs

opt_str_eq_iff : (o : Option String) (t : String) → (opt_str_eq o t ≡ true) ↔ (o ≡ some t)
opt_str_eq_iff none t = grind arith
opt_str_eq_iff (some s) t = grind (arith, eq_iff s t)

Has-expanded :
    (s : LogTable) (log : LogEntry) (logs : List LogEntry)
    → Has log (expanded (log_rows s logs)) ↔ (Has log logs × (s.expanded_id ≡ some log.id))
unfolding log_rows row
Has-expanded s log [] = (λ h. absurd h, λ h. absurd h.0)
Has-expanded s log (l ∷ logs) = grind (
  arith,
  Has-expanded s log logs,
  opt_str_eq_iff s.expanded_id l.id,
  opt_str_eq_iff s.expanded_id log.id,
)

-- After a click on an entry that is not the expanded one, the expanded entries of any list, also one
-- fetched later, are exactly those with its id; after a second click there is none.
pub expanded-toggle_expand :
    (s : LogTable) (id : String) (log : LogEntry) (logs : List LogEntry)
    → s.expanded_id ≢ some id
    → (Has log (expanded (log_rows (toggle_expand id s) logs)) ↔ (Has log logs × (id ≡ log.id)))
      × ((toggle_expand id (toggle_expand id s)).expanded_id ≡ none)
unfolding toggle_expand
expanded-toggle_expand s id log logs h = grind (
  arith,
  opt_str_eq_iff s.expanded_id id,
  opt_str_eq_iff (some id) id,
  Has-expanded (record { expanded_id = some id }) log logs,
)
