-- ===== src/Auth/Pages.antt =====
-- frontend/src/app/login/page.tsx and frontend/src/app/register/page.tsx: the two forms. The text
-- fields are set by the user; a submission starts, and settles when the server has answered. The two are
-- one step: what is typed in between is left out.
use Prim.Native.Char.{code}
use org_log.Prelude.{
  ℕ, ◌+◌, String, Bool, true, false, not, ◌&&◌, ◌||◌, Option, none, some, List, [], ◌∷◌, leb, ltb,
  truthy, if◌then◌else◌,
}
use org_log.Types.{AuthResponse, RegisterRequest, LoginRequest}
use org_log.Config.{auth_token_key}
use org_log.Browser.Storage.{Storage, set_item}
use org_log.Auth.{Detail, message, objects, ok, fail, AuthApi}

pub record Page : Type 0 where
  pub name : String
  pub email_prefix : String
  pub password : String
  pub show_password : Bool
  pub error : Detail
  pub is_loading : Bool
  pub storage : Storage
  pub visited : List String

-- A JavaScript text's `length`: code points beyond the first plane count twice.
unfoldable pub text_length : String → ℕ
text_length String.[] = 0
text_length (String.◌∷◌ c s) = (if leb 65536 (code c) then 2 else 1) + text_length s

-- `/\d/.test(s)`
unfoldable pub has_digit : String → Bool
has_digit String.[] = false
has_digit (String.◌∷◌ c s) = (leb b'0' (code c) && leb (code c) b'9') || has_digit s

pub record PasswordCheck : Type 0 where
  pub label : String
  pub met : Bool

unfoldable pub password_checks : Page → List PasswordCheck
password_checks p =
    record { label = "At least 8 characters"; met = leb 8 (text_length p.password) }
    ∷ record { label = "Contains a number"; met = has_digit p.password }
    ∷ []

-- Whether the submit button is enabled.
unfoldable pub can_login : Page → Bool
can_login p = not (p.is_loading || not (truthy p.email_prefix) || not (truthy p.password))

unfoldable pub can_register : Page → Bool
can_register p = not (
    p.is_loading
    || not (truthy p.name)
    || not (truthy p.email_prefix)
    || ltb (text_length p.password) 8)

unfoldable pub toggle_password : Page → Page
toggle_password p = record p { show_password = not p.show_password }

-- `setError(""); setIsLoading(true)`
unfoldable pub start : Page → Page
start p = record p { error = message ""; is_loading = true }

-- `apiErr?.body?.detail || fallback`: a list is not false.
abbrev pub or_fallback : Option Detail → String → Detail
or_fallback none fallback = message fallback
or_fallback (some (message t)) fallback = if truthy t then message t else message fallback
or_fallback (some objects) fallback = objects

-- The `catch` with its message for a rejection without a detail, and the `finally`.
unfoldable pub refuse : String → Option Detail → Page → Page
refuse fallback detail p = record p { error = or_fallback detail fallback; is_loading = false }

-- The end of the `try`, and the `finally`.
unfoldable pub enter : AuthResponse → Page → Page
enter response p = record p {
  storage = set_item auth_token_key response.access_token p.storage;
  visited = "/dashboard" ∷ p.visited;
  is_loading = false;
}

abbrev pub login_request : Page → LoginRequest
login_request p = record { email_prefix = p.email_prefix; password = p.password }

abbrev pub register_request : Page → RegisterRequest
register_request p = record { name = p.name; email_prefix = p.email_prefix; password = p.password }

module _ (api : AuthApi) where
  unfoldable pub submit_login : Page → Page
  unfolding start refuse enter
  submit_login p = elim (api.login (login_request p)) [
    | ok response ↦ enter response (start p)
    | fail detail ↦ refuse "Invalid credentials. Please try again." detail (start p)
  ]

  unfoldable pub submit_register : Page → Page
  unfolding start refuse enter
  submit_register p = elim (api.register (register_request p)) [
    | fail detail ↦ refuse "Registration failed. Please try again." detail (start p)
    | ok user ↦ elim (api.login (login_request p)) [
      | ok response ↦ enter response (start p)
      | fail detail ↦ refuse "Registration failed. Please try again." detail (start p)
    ]
  ]
