-- ===== src/Auth/Entry.antt =====
-- The sign-in page, the provider and the reload: the three agree on who is signed in.
use org_log.Prelude.{◌≡◌, refl, inl, inr, String, some, none, true, truthy}
use org_log.Types.{AuthResponse}
use org_log.Config.{auth_token_key}
use org_log.Browser.Storage.{Storage, get_item, set_item, get_item-set_item, get_item-remove_item}
use org_log.Auth.{ok, fail, AuthApi, Session, login, restore, logout, initial}
use org_log.Auth.Laws.{token-with_token, Reply-cases}
use org_log.Auth.Pages.{Page, start, enter, submit_login, login_request}
use org_log.Auth.Guard.{screen, redirect, nothing}

module _ (api : AuthApi) where
  -- A page that is loaded with a token in its storage asks for its user.
  restore_token :
      (t : String) (storage : Storage)
      → get_item auth_token_key storage ≡ some t
      → truthy t ≡ true
      → (restore api (initial storage)).user
        ≡ (elim (api.me (some t)) [ ok u ↦ some u | fail d ↦ none ])
  unfolding restore
  restore_token t storage e f = elim (Reply-cases (api.me (some t))) [
    | inl (u, g) ↦ rw (e, restore, f, g) refl
    | inr (d, g) ↦ rw (e, restore, f, g) refl
  ]

  login_accepted :
      (p : Page) (response : AuthResponse)
      → api.login (login_request p) ≡ ok response
      → let s = (login api (login_request p) (initial p.storage)).1 in
        (s.storage ≡ set_item auth_token_key response.access_token p.storage)
        × (s.user ≡ (elim (api.me (some response.access_token)) [ ok u ↦ some u | fail d ↦ none ]))
  unfolding login
  login_accepted p response e = elim (Reply-cases (api.me (some response.access_token))) [
    | inl (u, g) ↦
        rw (e, token-with_token response.access_token (initial p.storage), g) (refl, refl)
    | inr (d, g) ↦
        rw (e, token-with_token response.access_token (initial p.storage), g) (refl, refl)
  ]

  -- If the server answers a login with a token that is not empty, then the form stores what the
  -- provider's own login would have stored, and the page that is loaded next signs in the user whom
  -- that login would have signed in, or nobody if it would have signed in nobody.
  pub restore-submit_login :
      (p : Page) (response : AuthResponse)
      → api.login (login_request p) ≡ ok response
      → truthy response.access_token ≡ true
      → let q = submit_login api p in
        let s = (login api (login_request p) (initial p.storage)).1 in
        (q.storage ≡ s.storage) × ((restore api (initial q.storage)).user ≡ s.user)
  unfolding submit_login enter start
  restore-submit_login p response e f =
      let t = response.access_token in
      let (kept, who) = login_accepted p response e in
      rw (e, submit_login, kept, who)
        (
          refl,
          restore_token t _ (rw (get_item-set_item auth_token_key auth_token_key t p.storage) refl)
              f,
        )

  -- A page that is loaded after a logout, whatever was stored and whatever the server answers, signs
  -- nobody in, shows nothing and sends to the login page.
  pub restore-logout :
      (s : Session)
      → let r = restore api (initial (logout s).storage) in
        (r.user ≡ none) × (screen r ≡ nothing) × (redirect r ≡ some "/login")
  unfolding restore logout screen redirect
  restore-logout s =
      rw (get_item-remove_item auth_token_key auth_token_key s.storage, restore) (refl, refl, refl)
