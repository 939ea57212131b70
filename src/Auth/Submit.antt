-- ===== src/Auth/Submit.antt =====
-- What a submission of the two forms ends in.
use org_log.Prelude.{
  ◌≡◌, ◌⊎◌, inl, inr, refl, String, true, false, Option, none, some, ◌∷◌, truthy, Bool-cases,
}
use org_log.Config.{auth_token_key}
use org_log.Types.{AuthResponse}
use org_log.Browser.Storage.{set_item}
use org_log.Auth.{Detail, message, objects, AuthApi}
use org_log.Auth.Laws.{Reply-cases}
use org_log.Auth.Pages.{
  Page, or_fallback, start, refuse, enter, submit_login, submit_register, can_login, can_register,
  login_request, register_request,
}

-- A text that is not empty, or a list of objects.
abbrev pub IsError : Detail → Type 0
IsError d = ((t : String) × (d ≡ message t) × (truthy t ≡ true)) ⊎ (d ≡ objects)

-- The page is idle again, and has either stored a token and opened the dashboard with no error, or
-- kept storage and path and has an error.
pub record IsSettled (p q : Page) : Type 0 where
  pub idle : q.is_loading ≡ false
  pub result :
      ((q.error ≡ message "")
        × (q.visited ≡ "/dashboard" ∷ p.visited)
        × ((response : AuthResponse) × (q.storage
              ≡ set_item auth_token_key response.access_token p.storage)))
      ⊎ (IsError q.error × (q.visited ≡ p.visited) × (q.storage ≡ p.storage))

or_fallback-IsError :
    (fallback : String) (detail : Option Detail)
    → truthy fallback ≡ true
    → IsError (or_fallback detail fallback)
or_fallback-IsError fallback none h = inl (fallback, refl, h)
or_fallback-IsError fallback (some objects) h = inr refl
or_fallback-IsError fallback (some (message t)) h = elim (Bool-cases (truthy t)) [
  | inl e ↦ inl (t, rw e refl, e)
  | inr e ↦ inl (fallback, rw e refl, h)
]

enter-IsSettled : (response : AuthResponse) (p : Page) → IsSettled p (enter response (start p))
unfolding enter start
enter-IsSettled response p = record { idle = refl; result = inl (refl, refl, (response, refl)) }

refuse-IsSettled :
    (fallback : String) (detail : Option Detail) (p : Page)
    → truthy fallback ≡ true
    → IsSettled p (refuse fallback detail (start p))
unfolding refuse start
refuse-IsSettled fallback detail p h = record {
  idle = refl;
  result = inr (or_fallback-IsError fallback detail h, refl, refl);
}

module _ (api : AuthApi) where
  -- Whatever the server answers to a login.
  submit_login-IsSettled : (p : Page) → IsSettled p (submit_login api p)
  unfolding submit_login
  submit_login-IsSettled p = elim (Reply-cases (api.login (login_request p))) [
    | inl (r, e) ↦ rw (e, submit_login) (enter-IsSettled r p)
    | inr (d, e) ↦ rw (e, submit_login) (refuse-IsSettled _ d p refl)
  ]

  submit_register-IsSettled : (p : Page) → IsSettled p (submit_register api p)
  unfolding submit_register
  submit_register-IsSettled p = elim (Reply-cases (api.register (register_request p))) [
    | inr (d, e) ↦ rw (e, submit_register) (refuse-IsSettled _ d p refl)
    | inl (u, e) ↦ elim (Reply-cases (api.login (login_request p))) [
      | inl (r, f) ↦ rw (e, submit_register, f) (enter-IsSettled r p)
      | inr (d, f) ↦ rw (e, submit_register, f) (refuse-IsSettled _ d p refl)
    ]
  ]

  -- While a submission is under way neither form can be submitted again; whatever the server
  -- answers, the form ends idle, with the dashboard opened, a token stored and no error, or with an
  -- error, no page opened and nothing stored.
  pub submit_settles :
      (p : Page)
      → (can_login (start p) ≡ false)
        × (can_register (start p) ≡ false)
        × IsSettled p (submit_login api p)
        × IsSettled p (submit_register api p)
  unfolding can_login can_register start
  submit_settles p = (refl, refl, submit_login-IsSettled p, submit_register-IsSettled p)
