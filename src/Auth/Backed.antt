-- ===== src/Auth/Backed.antt =====
-- Nobody is signed in without a token, through any sequence of operations.
use org_log.Prelude.{
  ◌⊎◌, ◌≡◌, refl, String, true, false, none, some, List, [], ◌∷◌, truthy, is_some, Option-cases,
  Bool-cases, inl, inr, str_eq, if◌then◌else◌,
}
use org_log.Types.{RegisterRequest, LoginRequest}
use org_log.Config.{auth_token_key}
use org_log.Browser.Storage.{get_item, get_item-remove_item}
use org_log.Auth.Laws.{token-with_token, login_branches, register_branches, Reply-cases}
use org_log.Auth.{
  AuthApi, Session, is_authenticated, token, login, register, restore, logout, initial,
}

-- Whoever is shown as signed in has a token in the storage.
abbrev pub IsBacked : Session → Type 0
IsBacked s = (is_authenticated s ≡ false) ⊎ (is_some (token s) ≡ true)

-- What a user or a page load can ask for, with the server's answers at that time.
pub data Op : Type 0 where
  mounts : AuthApi → Op
  signs_in : AuthApi → LoginRequest → Op
  signs_up : AuthApi → RegisterRequest → Op
  signs_out : Op

pub apply : Op → Session → Session
apply (mounts api) s = restore api (initial s.storage)
apply (signs_in api request) s = (login api request s).1
apply (signs_up api request) s = (register api request s).1
apply signs_out s = logout s

pub apply_all : List Op → Session → Session
apply_all [] s = s
apply_all (o ∷ os) s = apply_all os (apply o s)

module _ (api : AuthApi) where
  login-IsBacked :
      (request : LoginRequest) (s : Session) → IsBacked s → IsBacked (login api request s).1
  login-IsBacked request s h = elim (login_branches api request s) [
    | inl (d, e, refused) ↦ rw refused h
    | inr (inl (r, d, e, f, lost)) ↦ rw lost (inr (rw (token-with_token r.access_token s) refl))
    | inr (inr (r, u, e, f, entered)) ↦
        rw entered (inr (rw (token-with_token r.access_token s) refl))
  ]

  register-IsBacked :
      (request : RegisterRequest) (s : Session) → IsBacked s → IsBacked (register api request s).1
  register-IsBacked request s h = elim (register_branches api request s) [
    | inl (d, e, refused) ↦ rw refused h
    | inr (u, e, created) ↦ rw created (login-IsBacked _ s h)
  ]

  pub restore-IsBacked : (s : Session) → s.user ≡ none → IsBacked (restore api s)
  unfolding restore
  restore-IsBacked s n = elim (Option-cases (token s)) [
    | inl e ↦ rw (e, restore) (inl (rw n refl))
    | inr (t, e) ↦ elim (Bool-cases (truthy t)) [
      | inr f ↦ rw (e, restore, f) (inl (rw n refl))
      | inl f ↦ elim (Reply-cases (api.me (some t))) [
        | inl (u, g) ↦ rw (e, restore, f, g) (inr (rw e refl))
        | inr (d, g) ↦ rw (e, restore, f, g) (inl (rw n refl))
      ]
    ]
  ]

pub logout-IsBacked : (s : Session) → IsBacked (logout s)
unfolding logout
logout-IsBacked s = inl refl

apply-IsBacked : (o : Op) (s : Session) → IsBacked s → IsBacked (apply o s)
unfolding apply
apply-IsBacked (mounts api) s h = restore-IsBacked api (initial s.storage) refl
apply-IsBacked (signs_in api request) s h = login-IsBacked api request s h
apply-IsBacked (signs_up api request) s h = register-IsBacked api request s h
apply-IsBacked signs_out s h = logout-IsBacked s

-- Through any page loads, logins, registrations and logouts, with any answers of the server: from a
-- state in which nobody is signed in without a token in the storage, such a state is reached.
pub apply_all-IsBacked : (os : List Op) (s : Session) → IsBacked s → IsBacked (apply_all os s)
unfolding apply_all
apply_all-IsBacked [] s h = h
apply_all-IsBacked (o ∷ os) s h = apply_all-IsBacked os (apply o s) (apply-IsBacked o s h)

-- A logout signs the user out, removes the token, keeps what is stored under every other key and
-- opens the login page.
pub logout_lem :
    (s : Session)
    → (is_authenticated (logout s) ≡ false)
      × ((logout s).visited ≡ "/login" ∷ s.visited)
      × ((k : String)
          → get_item k (logout s).storage
            ≡ (if str_eq auth_token_key k then none else get_item k s.storage))
unfolding logout
logout_lem s = (refl, refl, λ k. get_item-remove_item auth_token_key k s.storage)
