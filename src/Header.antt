-- ===== src/Header.antt =====
-- frontend/src/components/layout/header.tsx: the state of the API and the project in the bar above every page.
use org_log.Prelude.{String, Bool, false, Option, none, some, opt_str_eq, truthy, if◌then◌else◌}
use org_log.Types.{Project, HealthResponse}
use org_log.Controls.{online, offline, StatusDot, status_dot}

-- `health?.status === "ok"`
unfoldable pub is_healthy : Option HealthResponse → Bool
is_healthy none = false
is_healthy (some h) = opt_str_eq (some h.status) "ok"

pub record Header : Type 0 where
  pub title : String
  pub description : Option String
  pub dot : StatusDot
  pub status_text : String
  pub project_name : Option String

abbrev pub shown_text : Option String → Option String
shown_text none = none
shown_text (some d) = if truthy d then some d else none

unfoldable pub header : String → Option String → Option HealthResponse → Option Project → Header
unfolding is_healthy status_dot
header title description health project = record {
  title = title;
  description = shown_text description;
  dot = status_dot (if is_healthy health then online else offline) (is_healthy health);
  status_text = if is_healthy health then "API Connected" else "Disconnected";
  project_name = elim project [ none ↦ none | some p ↦ some p.name ];
}
