-- ===== src/Types.antt =====
-- frontend/src/lib/types (log.ts, auth.ts): the shapes of requests and responses. A JSON text is
-- not checked when it is parsed, so a level is the string that the server sent. An optional field is
-- an Option, a `Record` its entries in order, with the values of `metadata` as printed text.
use org_log.Prelude.{ℕ, String, Option, List}

pub record LogEntry : Type 0 where
  pub id : String
  pub project_id : String
  pub trace_id : String
  pub service : String
  pub level : String
  pub message : String
  pub metadata : Option (List (String × String))
  pub timestamp : String
  pub created_at : String

pub record LogListResponse : Type 0 where
  pub logs : List LogEntry
  pub total : ℕ
  pub limit : ℕ
  pub offset : ℕ

pub record LogQuery : Type 0 where
  pub project_id : String
  pub service : Option String
  pub level : Option String
  pub start_time : Option String
  pub end_time : Option String
  pub search_text : Option String
  pub limit : Option ℕ
  pub offset : Option ℕ

pub record ErrorPerMinute : Type 0 where
  pub minute : String
  pub count : ℕ

pub record LogAnalytics : Type 0 where
  pub project_id : String
  pub total_logs : ℕ
  pub logs_by_level : List (String × ℕ)
  pub logs_by_service : List (String × ℕ)
  pub errors_per_minute : List ErrorPerMinute

pub record LiveLogMessage : Type 0 where
  pub project_id : String
  pub trace_id : String
  pub service : String
  pub level : String
  pub message : String
  pub metadata : Option (List (String × String))
  pub timestamp : String

pub record User : Type 0 where
  pub id : String
  pub name : String
  pub email : String
  pub organization_id : String

pub record Project : Type 0 where
  pub id : String
  pub name : String
  pub organization_id : String
  pub created_at : String
  pub updated_at : String

pub record RegisterRequest : Type 0 where
  pub name : String
  pub email_prefix : String
  pub password : String

pub record LoginRequest : Type 0 where
  pub email_prefix : String
  pub password : String

pub record AuthResponse : Type 0 where
  pub access_token : String
  pub token_type : String

pub record CreateProjectRequest : Type 0 where
  pub name : String

pub record HealthResponse : Type 0 where
  pub status : String
  pub message : String
