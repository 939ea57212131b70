-- ===== src/Examples.antt =====
-- Concrete inputs for the examples: texts, messages, a server and its answers.
pub mod QueryClient
pub mod Site
pub mod Streaming
pub mod Overview
pub mod Pages
pub mod Account
pub mod Together
pub mod Inside
pub mod Controls
use org_log.Prelude.{
  String, Bool, Option, none, some, List, [], ◌∷◌, str_eq, opt_str_eq, if◌then◌else◌,
}
use org_log.Types.{
  LiveLogMessage, LogEntry, User, Project, RegisterRequest, LoginRequest, AuthResponse,
}
use org_log.Auth as Auth
use org_log.Auth.{Reply, ok, fail, AuthApi}

abbrev pub ws_url : String
ws_url = "ws://localhost:8080"

abbrev pub message : String → String → LiveLogMessage
message level content = record {
  project_id = "p1";
  trace_id = "t1";
  service = "billing";
  level = level;
  message = content;
  metadata = none;
  timestamp = "2024-01-01T00:00:00Z";
}

-- A parser that refuses one text and reads any other as an information.
abbrev pub parse : String → Option LiveLogMessage
parse raw = if str_eq raw "{" then none else some (message "INFO" raw)

abbrev pub entry : String → LogEntry
entry id = record {
  id = id;
  project_id = "p1";
  trace_id = "t1";
  service = "billing";
  level = "ERROR";
  message = "failed";
  metadata = none;
  timestamp = "2024-01-01T00:00:00Z";
  created_at = "2024-01-01T00:00:01Z";
}

abbrev pub project : String → Project
project id = record {
  id = id;
  name = "Project";
  organization_id = "o1";
  created_at = "2024-01-01T00:00:00Z";
  updated_at = "2024-01-01T00:00:00Z";
}

abbrev pub ada : User
ada = record { id = "u1"; name = "Ada"; email = "ada@org.com"; organization_id = "o1" }

-- A server that knows one password and one token.
abbrev pub server : AuthApi
server = record {
  register = λ r. ok ada;
  login = λ r.
      if str_eq r.password "secret99"
      then ok (record { access_token = "tok"; token_type = "bearer" })
      else fail (some (Auth.message "Invalid credentials"));
  me = λ t. if opt_str_eq t "tok" then ok ada else fail none;
}

abbrev pub credentials : LoginRequest
credentials = record { email_prefix = "ada"; password = "secret99" }

abbrev pub registration : RegisterRequest
registration = record { name = "Ada"; email_prefix = "ada"; password = "secret99" }
