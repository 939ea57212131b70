-- ===== src/Analytics/Recent.antt =====
-- frontend/src/components/dashboard/recent-logs-table.tsx: the first entries of the answer. The
-- formatting of times is a parameter.
use org_log.Prelude.{String, List, [], ◌∷◌, map, take}
use org_log.Types.{LogEntry}

pub record RecentRow : Type 0 where
  pub time : String
  pub level : String
  pub service : String
  pub message : String

pub data RecentLogs : Type 0 where
  no_recent_logs : RecentLogs
  recent_rows : List RecentRow → RecentLogs

module _ (format_timestamp_short : String → String) where
  abbrev pub recent_row : LogEntry → RecentRow
  recent_row log = record {
    time = format_timestamp_short log.timestamp;
    level = log.level;
    service = log.service;
    message = log.message;
  }

  unfoldable pub recent_logs_table : List LogEntry → RecentLogs
  recent_logs_table [] = no_recent_logs
  recent_logs_table (log ∷ logs) = recent_rows (map recent_row (take 8 (log ∷ logs)))
