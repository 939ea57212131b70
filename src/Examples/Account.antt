-- ===== src/Examples/Account.antt =====
-- Sign-ins, requests and projects against a small server.
use org_log.Prelude.{
  ℕ, opt_str_eq, ◌≡◌, ◌⊎◌, refl, String, true, false, Option, none, some, [], ◌∷◌, str_eq,
  if◌then◌else◌,
}
use org_log.Config.{auth_token_key, ApiConfig, api_config}
use org_log.Browser.Storage.{Storage, get_item}
use org_log.Auth.{
  Reply, ok, fail, Session, token, start_check, settle_check, login, register, restore, logout,
}
use org_log.Auth as Auth
use org_log.Auth.Pages.{Page, submit_login}
use org_log.Auth.Check.{check_reply, late_check}
use org_log.Api.{text, RequestOptions, RequestInit, Response, get_token, get_options}
use org_log.Auth.Client.{Reading, client, me_response, restore_branches}
use org_log.Api.Endpoints.{Body}
use org_log.Api.Laws.{IsGood, IsBad, IsLost}
use org_log.Projects.{Projects, find_project, switch_project, fetch_projects}
use org_log.Projects as Projects
use org_log.Projects.Restore.{fetch-switch_project}
use org_log.Examples.{server, ada, project}

abbrev signed_out : Session
signed_out = record { user = none; is_loading = false; storage = []; visited = [] }

abbrev stored : Storage
stored = (auth_token_key, "tok") ∷ ("theme", "dark") ∷ []

abbrev signed_in : Session
signed_in = record {
  user = some ada;
  is_loading = false;
  storage = stored;
  visited = "/dashboard" ∷ [];
}

abbrev form : Page
form = record {
  name = "Ada";
  email_prefix = "ada";
  password = "secret99";
  show_password = false;
  error = Auth.message "Invalid credentials";
  is_loading = false;
  storage = [];
  visited = [];
}

-- The same form in a browser that holds a token from before.
abbrev returning : Page
returning = record form { storage = (auth_token_key, "old") ∷ [] }

returning-token : token (Auth.initial returning.storage) ≡ some "old"
unfolding get_item
returning-token = refl

late_check_example :
    let (waits, c) = start_check (Auth.initial returning.storage) in
    let reply = check_reply server (Auth.initial returning.storage) in
    let q = submit_login server (record returning { storage = c.storage }) in
    let early =
      submit_login server (record returning { storage = (settle_check reply c).storage }) in
    let late = settle_check reply (record c { storage = q.storage }) in
    (waits ≡ true)
    × ((restore server (Auth.initial q.storage)).user ≡ some ada)
    × ((restore server (Auth.initial early.storage)).user ≡ some ada)
    × (token late ≡ none)
    × ((restore server (Auth.initial late.storage)).user ≡ none)
late_check_example =
    late_check server returning "old" (record { access_token = "tok"; token_type = "bearer" }) none
      ada returning-token refl refl refl refl refl

abbrev config : ApiConfig
config = api_config none none

abbrev options : RequestOptions String
options = get_options (("project_id", some (text "p1")) ∷ ("level", none) ∷ [])

-- A server that answers a GET with a text and refuses anything else.
abbrev fetch : RequestInit String → Option (Response String)
fetch init =
    if str_eq init.method "GET"
    then some (record { ok = true; status = 200; status_text = "OK"; json = some "logs" })
    else some (record { ok = false; status = 422; status_text = "Invalid"; json = some "detail" })

-- A server that has a user for whoever sends the token.
abbrev user_fetch : RequestInit Body → Option (Response String)
user_fetch init =
    if opt_str_eq (get_item "Authorization" init.headers) "Bearer tok"
    then some (record { ok = true; status = 200; status_text = "OK"; json = some "ada" })
    else some (record { ok = false; status = 401; status_text = "Unauthorized"; json = none })

abbrev reading : Reading String
reading = record {
  to_user = λ _. ada;
  to_auth_response = λ t. record { access_token = t; token_type = "bearer" };
  to_detail = λ d. some (Auth.message d);
}

restore_branches_example :
    ((value : String) × IsGood value (me_response reading user_fetch config stored)
      × ((restore (client reading user_fetch config) (Auth.initial stored)).user ≡ some ada)
      × (get_token (restore (client reading user_fetch config) (Auth.initial stored)).storage
          ≡ some "tok"))
    ⊎ ((IsLost (me_response reading user_fetch config stored)
          ⊎ ((status : ℕ) × (status_text : String) × (body : Option String) × IsBad status
                status_text body
                (me_response reading user_fetch config stored)))
        × ((restore (client reading user_fetch config) (Auth.initial stored)).user ≡ none)
        × (get_token (restore (client reading user_fetch config) (Auth.initial stored)).storage
            ≡ none))
unfolding get_token get_item
restore_branches_example = restore_branches reading user_fetch config stored "tok" refl refl

abbrev two_projects : Projects
two_projects = record {
  projects = project "p1" ∷ project "p2" ∷ [];
  current_project = some (project "p1");
  is_loading = false;
  storage = stored;
}

fetch-switch_project_example :
    ((switch_project "p2" two_projects).current_project ≡ some (project "p2"))
    × ((fetch_projects true
          (ok two_projects.projects)
          (Projects.initial (switch_project "p2" two_projects).storage)).current_project
        ≡ some (project "p2"))
fetch-switch_project_example = fetch-switch_project "p2" (project "p2") two_projects refl refl
