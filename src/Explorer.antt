-- ===== src/Explorer.antt =====
-- The log explorer: frontend/src/app/dashboard/logs/page.tsx, the filters of
-- components/logs/log-filters.tsx. `to_iso` is the conversion of a local time by `Date`.
pub mod Pagination
pub mod Paging
pub mod Filters
pub mod FilterForm
use org_log.Prelude.{
  ℕ, ◌<◌, String, Bool, true, false, not, ◌&&◌, ◌||◌, Option, none, some, List, [], ◌∷◌, length,
  ltb, ◌==◌, truthy, if◌then◌else◌,
}
use org_log.Types.{LogEntry, LogListResponse, LogQuery}
use org_log.Controls.Plain.{EmptyState}
use org_log.Config.{page_size}

pub record Explorer : Type 0 where
  pub search_text : String
  pub level : String
  pub service : String
  pub start_time : String
  pub end_time : String
  pub offset : ℕ

abbrev pub initial : Explorer
initial = record {
  search_text = "";
  level = "";
  service = "";
  start_time = "";
  end_time = "";
  offset = 0;
}

-- The fields of the filter form, one for each setter.
pub data Field : Type 0 where
  search_field level_field service_field start_field end_field : Field

set_field : Field → String → Explorer → Explorer
set_field search_field v s = record s { search_text = v }
set_field level_field v s = record s { level = v }
set_field service_field v s = record s { service = v }
set_field start_field v s = record s { start_time = v }
set_field end_field v s = record s { end_time = v }

-- `handleFilterChange(setter)(value)`
unfoldable pub filter_change : Field → String → Explorer → Explorer
unfolding set_field
filter_change f v s = record (set_field f v s) { offset = 0 }

unfoldable pub clear_filters : Explorer → Explorer
clear_filters s = record s {
  search_text = "";
  level = "";
  service = "";
  start_time = "";
  end_time = "";
  offset = 0;
}

-- `onPageChange={setOffset}`
unfoldable pub page_change : ℕ → Explorer → Explorer
page_change offset s = record s { offset = offset }

unfoldable pub has_active_filters : Explorer → Bool
has_active_filters s =
    truthy s.search_text
    || truthy s.level
    || truthy s.service
    || truthy s.start_time
    || truthy s.end_time

-- `value || undefined`
abbrev pub or_undefined : String → Option String
or_undefined v = if truthy v then some v else none

abbrev pub iso_or_undefined : (String → String) → String → Option String
iso_or_undefined to_iso v = if truthy v then some (to_iso v) else none

unfoldable pub build_query : (String → String) → String → Explorer → LogQuery
build_query to_iso project_id s = record {
  project_id = project_id;
  service = or_undefined s.service;
  level = or_undefined s.level;
  start_time = iso_or_undefined to_iso s.start_time;
  end_time = iso_or_undefined to_iso s.end_time;
  search_text = or_undefined s.search_text;
  limit = some page_size;
  offset = some s.offset;
}

-- What the page shows below the filters. `paged`: the pagination is shown, with this total.
pub data View : Type 0 where
  failed_to_load : View
  no_logs_found : Bool → View
  table : List LogEntry → Bool → Option ℕ → View

abbrev pub logs_of : Option LogListResponse → List LogEntry
logs_of none = []
logs_of (some d) = d.logs

abbrev pub is_empty_page : Option LogListResponse → Bool
is_empty_page none = false
is_empty_page (some d) = length d.logs == 0

abbrev pub paged : Option LogListResponse → Option ℕ
paged none = none
paged (some d) = if ltb page_size d.total then some d.total else none

unfoldable pub view : Option LogListResponse → Bool → Bool → Explorer → View
view answer is_loading is_error s =
    if is_error
    then failed_to_load
    else if is_empty_page answer && not is_loading
    then no_logs_found (has_active_filters s)
    else table (logs_of answer) is_loading (paged answer)

-- The notice that stands in place of the table.
unfoldable pub notice : View → Option EmptyState
notice failed_to_load = some (record {
  title = "Failed to load logs";
  description = "There was an error fetching logs. Make sure the API server is running.";
})
notice (no_logs_found filtered) = some (record {
  title = "No logs found";
  description =
      if filtered
      then "Try adjusting your filters to find what you're looking for."
      else "No logs have been ingested yet. Send some logs to get started.";
})
notice (table logs is_loading total) = none

-- "Found … logs", and if "matching your filters" follows.
unfoldable pub summary : Option LogListResponse → Bool → Explorer → Option (ℕ × Bool)
unfolding has_active_filters
summary none is_loading s = none
summary (some d) is_loading s = if is_loading then none else some (d.total, has_active_filters s)
