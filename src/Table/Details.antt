-- ===== src/Table/Details.antt =====
-- The details that frontend/src/components/logs/log-table.tsx opens below a row, with its copy button.
-- The formatting of times and the printing of JSON are parameters.
use org_log.Prelude.{String, Option, none, some, List, length, ltb, if◌then◌else◌}
use org_log.Types.{LogEntry}
use org_log.Table.{LogDetailRow, Row}

pub record Details : Type 0 where
  pub log_id : String
  pub trace_id : String
  pub project_id : String
  pub created_at : String
  pub message : String
  pub metadata : Option String
  pub button : String

-- `log.metadata && Object.keys(log.metadata).length > 0 && …`
abbrev pub shown_metadata :
    (List (String × String) → String) → Option (List (String × String)) → Option String
shown_metadata stringify none = none
shown_metadata stringify (some entries) =
    if ltb 0 (length entries) then some (stringify entries) else none

module _ (format_timestamp : String → String) (stringify : List (String × String) → String) where
  unfoldable pub details : LogEntry → LogDetailRow → Details
  details log s = record {
    log_id = log.id;
    trace_id = log.trace_id;
    project_id = log.project_id;
    created_at = format_timestamp log.created_at;
    message = log.message;
    metadata = shown_metadata stringify log.metadata;
    button = if s.copied then "Copied" else "Copy JSON";
  }

  -- The cells of a row; `opened`: the details below it, if it is expanded.
  pub record Cells : Type 0 where
    pub timestamp : String
    pub level : String
    pub service : String
    pub message : String
    pub opened : Option Details

  unfoldable pub cells : LogDetailRow → Row → Cells
  unfolding details
  cells s r = record {
    timestamp = format_timestamp r.log.timestamp;
    level = r.log.level;
    service = r.log.service;
    message = r.log.message;
    opened = if r.is_expanded then some (details r.log s) else none;
  }
