-- ===== src/Auth/Laws.antt =====
-- What the operations of the provider leave behind on every branch.
use org_log.Prelude.{
  ◌≡◌, ◌⊎◌, ◌↔◌, refl, String, true, false, Option, some, ◌∷◌, truthy, Option-cases, Bool-cases,
  inl, inr,
}
use org_log.Types.{User, RegisterRequest, LoginRequest, AuthResponse}
use org_log.Config.{auth_token_key}
use org_log.Browser.Storage.{Storage, get_item, set_item, get_item-set_item}
use org_log.Auth.{
  Detail, Reply, ok, fail, AuthApi, Session, token, login, register, restore, initial,
}

abbrev pub with_token : String → Session → Session
with_token t s = record s { storage = set_item auth_token_key t s.storage }

pub token-with_token : (t : String) (s : Session) → token (with_token t s) ≡ some t
token-with_token t s = rw (get_item-set_item auth_token_key auth_token_key t s.storage) refl

pub Reply-cases :
    {A : Type 0} (r : Reply A) → ((a : A) × (r ≡ ok a)) ⊎ ((d : Option Detail) × (r ≡ fail d))
Reply-cases (ok a) = inl (a, refl)
Reply-cases (fail d) = inr (d, refl)

module _ (api : AuthApi) where
  -- A login does one of three things. If the credentials are refused, it changes nothing; if they
  -- give a token that `me` then refuses, the token stays stored and nobody is signed in; and if `me`
  -- gives a user, the token is stored, the user is signed in and the dashboard is opened. The caller
  -- sees the rejection in the first two cases.
  pub login_branches :
      (request : LoginRequest) (s : Session)
      → ((d : Option Detail) × (api.login request ≡ fail d) × (login api request s ≡ (fail d, s)))
        ⊎ ((r : AuthResponse) × (d : Option Detail) × (api.login request ≡ ok r)
            × (api.me (some r.access_token) ≡ fail d)
            × (login api request s ≡ (fail d, with_token r.access_token s)))
        ⊎ ((r : AuthResponse) × (u : User) × (api.login request ≡ ok r)
            × (api.me (some r.access_token) ≡ ok u)
            × (login api request s ≡ (
              ok tt,
              record (with_token r.access_token s) {
                user = some u;
                visited = "/dashboard" ∷ s.visited;
              },
            )))
  unfolding login
  login_branches request s = elim (Reply-cases (api.login request)) [
    | inr (d, e) ↦ inl (d, e, rw e refl)
    | inl (r, e) ↦ elim (Reply-cases (api.me (some r.access_token))) [
      | inr (d, f) ↦ inr (inl (r, d, e, f, rw (e, token-with_token r.access_token s, f) refl))
      | inl (u, f) ↦ inr (inr (r, u, e, f, rw (e, token-with_token r.access_token s, f) refl))
    ]
  ]

  -- Registering is the registration call, whose rejection changes nothing, and else a login with the
  -- same email prefix and password.
  pub register_branches :
      (request : RegisterRequest) (s : Session)
      → ((d : Option Detail) × (api.register request ≡ fail d)
          × (register api request s ≡ (fail d, s)))
        ⊎ ((u : User) × (api.register request ≡ ok u)
            × (register api request s
                ≡ login api
                    (record { email_prefix = request.email_prefix; password = request.password })
                    s))
  unfolding login register
  register_branches request s = elim (Reply-cases (api.register request)) [
    | inr (d, e) ↦ inl (d, e, rw e refl)
    | inl (u, e) ↦ inr (u, e, rw e refl)
  ]

module _ (api : AuthApi) where
  -- The check on mount, from the state of the first render: it ends the loading, and it signs in
  -- exactly the user that `me` gives for the stored token, if there is one that is not empty.
  pub restore_lem :
      (storage : Storage)
      → let s = restore api (initial storage) in
        (s.is_loading ≡ false)
        × ((u : User)
            → (s.user ≡ some u) ↔ (
                (t : String) × (get_item auth_token_key storage ≡ some t)
                × (truthy t ≡ true)
                × (api.me (some t) ≡ ok u)))
  unfolding restore
  restore_lem storage = elim (Option-cases (get_item auth_token_key storage)) [
    | inl e ↦ rw (e, restore) (refl, λ u. (λ h. absurd (cc), λ h. absurd (cc (h.1))))
    | inr (t, e) ↦ elim (Bool-cases (truthy t)) [
      | inr f ↦ rw (e, restore, f) (refl, λ u. (λ h. absurd (cc), λ h. absurd (cc (h.1, h.2))))
      | inl f ↦ elim (Reply-cases (api.me (some t))) [
        | inl (u, g) ↦
            rw (e, restore, f, g) (refl, λ v. (λ h. (t, refl, f, cc), λ h. cc (h.1, h.3)))
        | inr (d, g) ↦
            rw (e, restore, f, g) (refl, λ v. (λ h. absurd (cc), λ h. absurd (cc (h.1, h.3))))
      ]
    ]
  ]
