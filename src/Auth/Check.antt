-- ===== src/Auth/Check.antt =====
-- The check on mount in its two halves, and an answer that comes too late.
use org_log.Prelude.{
  ◌≡◌, refl, String, true, Option, none, some, truthy, if◌then◌else◌, Option-cases, Bool-cases, inl,
  inr,
}
use org_log.Types.{User, AuthResponse}
use org_log.Config.{auth_token_key}
use org_log.Browser.Storage.{
  Storage, set_item, remove_item, get_item-set_item, get_item-remove_item,
}
use org_log.Auth.{
  Detail, Reply, ok, fail, AuthApi, Session, token, initial, start_check, settle_check, restore,
}
use org_log.Auth.Laws.{Reply-cases}
use org_log.Auth.Pages.{Page, start, enter, submit_login, login_request}

-- The answer of `me` to the token that is stored when the check starts.
unfoldable pub check_reply : AuthApi → Session → Reply User
check_reply api s = elim (token s) [ none ↦ fail none | some t ↦ api.me (some t) ]

-- The whole effect is its two halves.
pub restore-halves :
    (api : AuthApi) (s : Session)
    → restore api s
      ≡ (let (waits, t) = start_check s in if waits then settle_check (check_reply api s) t else t)
unfolding restore start_check settle_check check_reply
restore-halves api s = elim (Option-cases (token s)) [
  | inl e ↦ rw (e, restore, start_check) refl
  | inr (t, e) ↦ elim (Bool-cases (truthy t)) [
    | inr f ↦ rw (e, restore, start_check, f) refl
    | inl f ↦ elim (Reply-cases (api.me (some t))) [
      | inl (u, g) ↦ rw (e, restore, start_check, f, settle_check, check_reply, g) refl
      | inr (d, g) ↦ rw (e, restore, start_check, f, settle_check, check_reply, g) refl
    ]
  ]
]

restore-set_item :
    (api : AuthApi) (m : Storage) (t : String) (u : User)
    → truthy t ≡ true
    → api.me (some t) ≡ ok u
    → (restore api (initial (set_item auth_token_key t m))).user ≡ some u
unfolding restore
restore-set_item api m t u new known =
    rw (get_item-set_item auth_token_key auth_token_key t m, restore, new, known) refl

signed_out :
    (api : AuthApi) (m : Storage) → token (initial m) ≡ none → (restore api (initial m)).user ≡ none
unfolding restore
signed_out api m e = rw (e, restore) refl

waiting :
    (m : Storage) (old : String)
    → token (initial m) ≡ some old
    → truthy old ≡ true
    → start_check (initial m) ≡ (true, initial m)
unfolding start_check
waiting m old has full = rw (has, start_check, full) refl

refused_reply :
    (api : AuthApi) (m : Storage) (old : String) (d : Option Detail)
    → token (initial m) ≡ some old
    → api.me (some old) ≡ fail d
    → check_reply api (initial m) ≡ fail d
unfolding check_reply
refused_reply api m old d has refused = rw (has, check_reply) refused

stored :
    (api : AuthApi) (p : Page) (response : AuthResponse)
    → api.login (login_request p) ≡ ok response
    → (m : Storage)
    → (submit_login api (record p { storage = m })).storage
      ≡ set_item auth_token_key response.access_token m
unfolding submit_login enter start
stored api p response e m = rw (e, submit_login) refl

-- A page is loaded with an old token, and its check is under way, to be refused, when somebody signs in
-- on the sign-in page, with a token that the server knows. Without the check's failure, or if it
-- comes before the sign-in, a page that is loaded next signs that user in; if it comes after the
-- sign-in, it removes the new token, and a page that is loaded next signs nobody in.
pub late_check :
    (api : AuthApi) (p : Page) (old : String) (response : AuthResponse) (d : Option Detail)
    (u : User)
    → token (initial p.storage) ≡ some old
    → truthy old ≡ true
    → api.me (some old) ≡ fail d
    → api.login (login_request p) ≡ ok response
    → truthy response.access_token ≡ true
    → api.me (some response.access_token) ≡ ok u
    → let (waits, c) = start_check (initial p.storage) in
      let reply = check_reply api (initial p.storage) in
      let q = submit_login api (record p { storage = c.storage }) in
      let early = submit_login api (record p { storage = (settle_check reply c).storage }) in
      let late = settle_check reply (record c { storage = q.storage }) in
      (waits ≡ true)
      × ((restore api (initial q.storage)).user ≡ some u)
      × ((restore api (initial early.storage)).user ≡ some u)
      × (token late ≡ none)
      × ((restore api (initial late.storage)).user ≡ none)
unfolding settle_check
late_check api p old response d u has full refused e new known =
    let m : Storage = set_item auth_token_key response.access_token p.storage in
    let m' : Storage = remove_item auth_token_key p.storage in
    let access = response.access_token in
    let gone = get_item-remove_item auth_token_key auth_token_key m in
    let starts = waiting p.storage old has full in
    let replies = refused_reply api p.storage old d has refused in
    let signs_in = stored api p response e in
    (
      rw starts refl,
      rw (starts, signs_in p.storage) (restore-set_item api p.storage access u new known),
      rw (starts, replies, signs_in m') (restore-set_item api m' access u new known),
      rw (starts, replies, signs_in p.storage) gone,
      rw (starts, replies, signs_in p.storage) (signed_out api (remove_item auth_token_key m) gone),
    )
