-- ===== src/Api/Endpoints.antt =====
-- frontend/src/lib/api/auth.ts, logs.ts, projects.ts: the calls of the server, each a path and the
-- options that `apiClient` is given.
use Prim.Native.String.{◌++◌ as join}
use org_log.Prelude.{String, Bool, true, false, Option, some, List, [], ◌∷◌}
use org_log.Types.{LogQuery, RegisterRequest, LoginRequest, CreateProjectRequest}
use org_log.Config.Endpoints
use org_log.Api.{Param, text, number, RequestOptions, get_options, post_options}
use mathlib.Core.Option

pub data Body : Type 0 where
  register_body : RegisterRequest → Body
  login_body : LoginRequest → Body
  project_body : CreateProjectRequest → Body
  empty_body : Body

pub record Call : Type 0 where
  pub path : String
  pub options : RequestOptions Body

pub get : String → List (String × Option Param) → Call
get path params = record { path = path; options = get_options params }

pub post : String → Body → Bool → Call
post path body skip_auth = record { path = path; options = post_options body skip_auth }

-- `authApi`
unfoldable pub register : RegisterRequest → Call
unfolding post
register request = post Endpoints.register (register_body request) true

unfoldable pub login : LoginRequest → Call
unfolding post
login request = post Endpoints.login (login_body request) true

unfoldable pub me : Call
unfolding get
me = get Endpoints.me []

unfoldable pub logout : Call
unfolding post
logout = post Endpoints.logout empty_body false

-- `logsApi`
unfoldable pub health : Call
unfolding get
health = get Endpoints.health []

unfoldable pub search_params : LogQuery → List (String × Option Param)
search_params query =
    ("project_id", some (text query.project_id))
    ∷ ("service", Option.map text query.service)
    ∷ ("level", Option.map text query.level)
    ∷ ("start_time", Option.map text query.start_time)
    ∷ ("end_time", Option.map text query.end_time)
    ∷ ("search_text", Option.map text query.search_text)
    ∷ ("limit", Option.map number query.limit)
    ∷ ("offset", Option.map number query.offset)
    ∷ []

unfoldable pub search : LogQuery → Call
unfolding get search_params
search query = get Endpoints.logs (search_params query)

unfoldable pub analytics : String → Call
unfolding get
analytics project_id = get Endpoints.analytics (("project_id", some (text project_id)) ∷ [])

-- `projectsApi`
unfoldable pub list : Call
unfolding get
list = get Endpoints.projects []

unfoldable pub get_project : String → Call
unfolding get
get_project project_id = get (join Endpoints.projects (join "/" project_id)) []

unfoldable pub create : CreateProjectRequest → Call
unfolding post
create request = post Endpoints.projects (project_body request) false
