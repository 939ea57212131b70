-- ===== src/Auth/Forms.antt =====
-- What the pages frontend/src/app/login/page.tsx and frontend/src/app/register/page.tsx show of their
-- state: the error banner, the inputs with their handlers, the password checks and the button.
use org_log.Prelude.{
  ℕ, ◌≡◌, ◌⊎◌, inl, inr, refl, String, Bool, true, false, not, ◌&&◌, Option, none, some, List, [],
  ◌∷◌, truthy, leb, if◌then◌else◌, arith,
}
use org_log.Browser.Storage.{Storage}
use org_log.Auth.{Detail, message, objects, AuthApi}
use org_log.Auth.Pages.{
  Page, PasswordCheck, password_checks, can_login, can_register, start, submit_login,
  submit_register, text_length, enter, refuse, login_request, register_request,
}
use org_log.Auth.Laws.{Reply-cases}
use org_log.Auth.Submit.{IsSettled, submit_settles}

-- `useState("")` and `useState(false)`
abbrev pub blank : Storage → Page
blank storage = record {
  name = "";
  email_prefix = "";
  password = "";
  show_password = false;
  error = message "";
  is_loading = false;
  storage = storage;
  visited = [];
}

-- The `onChange` of the three inputs.
unfoldable pub type_name : String → Page → Page
type_name v p = record p { name = v }

unfoldable pub type_email_prefix : String → Page → Page
type_email_prefix v p = record p { email_prefix = v }

unfoldable pub type_password : String → Page → Page
type_password v p = record p { password = v }

pub data InputType : Type 0 where
  text password : InputType

-- What the browser checks of an input; `min_length` is 0 where the page sets none.
pub record Input : Type 0 where
  pub label : String
  pub input_type : InputType
  pub value : String
  pub required : Bool
  pub min_length : ℕ
  pub pattern : Option String

-- `submit`: the text of the button, `none` while it shows the spinner.
pub record Form : Type 0 where
  pub banner : Option Detail
  pub inputs : List Input
  pub checks : List PasswordCheck
  pub disabled : Bool
  pub submit : Option String

-- `{error && <span>{error}</span>}`, with what is put into the span.
abbrev pub banner_of : Page → Option Detail
banner_of p = elim p.error [
  | message t ↦ if truthy t then some (message t) else none
  | objects ↦ some objects
]

-- React renders a text, and throws on objects, which takes the page away.
abbrev pub is_rendered : Form → Bool
is_rendered f = elim f.banner [
  | none ↦ true
  | some d ↦ elim d [ message t ↦ true | objects ↦ false ]
]

abbrev pub password_input : ℕ → Page → Input
password_input min_length p = record {
  label = "Password";
  input_type = if p.show_password then InputType.text else InputType.password;
  value = p.password;
  required = true;
  min_length = min_length;
  pattern = none;
}

abbrev pub text_input : String → ℕ → String → Input
text_input label min_length value = record {
  label = label;
  input_type = InputType.text;
  value = value;
  required = true;
  min_length = min_length;
  pattern = none;
}

unfoldable pub login_form : Page → Form
unfolding can_login
login_form p = record {
  banner = banner_of p;
  inputs = text_input "Email" 0 p.email_prefix ∷ password_input 0 p ∷ [];
  checks = [];
  disabled = not (can_login p);
  submit = if p.is_loading then none else some "Sign in";
}

unfoldable pub register_form : Page → Form
unfolding can_register password_checks
register_form p = record {
  banner = banner_of p;
  inputs =
      text_input "Full name" 2 p.name
      ∷ record (text_input "Email" 0 p.email_prefix) { pattern = some "^[a-zA-Z0-9._-]+$" }
      ∷ password_input 8 p
      ∷ [];
  checks = if truthy p.password then password_checks p else [];
  disabled = not (can_register p);
  submit = if p.is_loading then none else some "Create account";
}

-- A form that waits for the server: no error, a spinner, and nothing to click.
abbrev pub IsWaiting : Form → Type 0
IsWaiting f = (f.banner ≡ none) × (f.submit ≡ none) × (f.disabled ≡ true)

-- Exactly one of the three: the dashboard is opened, an error is shown, or the page cannot be rendered.
abbrev pub IsAnswered : Page → Page → Form → Type 0
IsAnswered p q f =
    ((f.banner ≡ none) × (is_rendered f ≡ true) × (q.visited ≡ "/dashboard" ∷ p.visited))
    ⊎ ((((t : String) × (f.banner ≡ some (message t)) × (truthy t ≡ true) × (is_rendered f ≡ true))
          ⊎ ((f.banner ≡ some objects) × (is_rendered f ≡ false)))
        × (q.visited ≡ p.visited)
        × (q.storage ≡ p.storage))

banner_of-IsSettled :
    (p q : Page) (f : Form) → f.banner ≡ banner_of q → IsSettled p q → IsAnswered p q f
banner_of-IsSettled p q f b h = elim (h.result) [
  | inl (e, v, r) ↦ inl (rw (b, e) refl, rw (b, e) refl, v)
  | inr (inl (t, e, full), v, s) ↦
      inr (inl (t, rw (b, e, full) refl, full, rw (b, e, full) refl), v, s)
  | inr (inr e, v, s) ↦ inr (inr (rw (b, e) refl, rw (b, e) refl), v, s)
]

-- What a page keeps through a submission.
abbrev Keeps : Page → Page → Type 0
Keeps p q = (q.name ≡ p.name) × (q.email_prefix ≡ p.email_prefix) × (q.password ≡ p.password)

submit_login-Keeps : (api : AuthApi) (p : Page) → Keeps p (submit_login api p)
unfolding submit_login start enter refuse
submit_login-Keeps api p = elim (Reply-cases (api.login (login_request p))) [
  | inl (r, e) ↦ rw (e, submit_login) (refl, refl, refl)
  | inr (d, e) ↦ rw (e, submit_login) (refl, refl, refl)
]

submit_register-Keeps : (api : AuthApi) (p : Page) → Keeps p (submit_register api p)
unfolding submit_register start enter refuse
submit_register-Keeps api p = elim (Reply-cases (api.register (register_request p))) [
  | inr (d, e) ↦ rw (e, submit_register) (refl, refl, refl)
  | inl (u, e) ↦ elim (Reply-cases (api.login (login_request p))) [
    | inl (r, f) ↦ rw (e, submit_register, f) (refl, refl, refl)
    | inr (d, f) ↦ rw (e, submit_register, f) (refl, refl, refl)
  ]
]

-- While a submission is under way, either form shows no error, a spinner, and a disabled button.
-- Whatever the server answers, the button then has its text back and is enabled exactly if the inputs,
-- which are kept, allow it (not empty, and a password of 8 for a registration); and either the dashboard
-- is opened and there is no error, or nothing is stored and a text is shown as the error, or nothing is
-- stored and the error is a list of objects, with which React cannot render the page.
pub submitted_forms :
    (api : AuthApi) (p : Page)
    → let q = submit_login api p in
      let r = submit_register api p in
      IsWaiting (login_form (start p))
      × IsWaiting (register_form (start p))
      × ((login_form q).submit ≡ some "Sign in")
      × ((login_form q).disabled ≡ not (truthy p.email_prefix && truthy p.password))
      × IsAnswered p q (login_form q)
      × ((register_form r).submit ≡ some "Create account")
      × ((register_form r).disabled
          ≡ not (truthy p.name && truthy p.email_prefix && leb 8 (text_length p.password)))
      × IsAnswered p r (register_form r)
unfolding login_form register_form can_login can_register start
submitted_forms api p =
    let q = submit_login api p in
    let r' = submit_register api p in
    let (a, b, l, r) = submit_settles api p in
    let (n, e, w) = submit_login-Keeps api p in
    let (n', e', w') = submit_register-Keeps api p in
    (
      (refl, refl, refl),
      (refl, refl, refl),
      rw l.idle refl,
      ground (arith, l.idle),
      banner_of-IsSettled p q (login_form q) refl l,
      rw r.idle refl,
      ground (arith, r.idle),
      banner_of-IsSettled p r' (register_form r') refl r,
    )
