-- ===== src/Config/Endpoints.antt =====
-- `API_CONFIG.endpoints` of frontend/src/lib/constants/config.ts.
use org_log.Prelude.{String}

abbrev pub health : String
health = "/api/v1/health"

abbrev pub logs : String
logs = "/api/v1/logs"

abbrev pub analytics : String
analytics = "/api/v1/logs/analytics"

abbrev pub websocket : String
websocket = "/api/v1/ws"

abbrev pub register : String
register = "/api/v1/auth/register"

abbrev pub login : String
login = "/api/v1/auth/login"

abbrev pub logout : String
logout = "/api/v1/auth/logout"

abbrev pub me : String
me = "/api/v1/auth/me"

abbrev pub projects : String
projects = "/api/v1/projects"
