-- ===== src/Auth/Client.antt =====
-- The answers of the server that the provider's operations are given, as the client of
-- frontend/src/lib/api makes them of `fetch`: every call reads the token when it is made. What the
-- types of TypeScript promise of the JSON values is a parameter.
use org_log.Prelude.{
  ◌≡◌, ◌⊎◌, inl, inr, refl, sym, ap, ◌∙◌, String, true, Option, none, some, List, [], ◌∷◌, truthy,
  ℕ, Option-cases, Bool-cases,
}
use org_log.Types.{User, RegisterRequest, LoginRequest, AuthResponse}
use org_log.Config.{ApiConfig, auth_token_key}
use org_log.Browser.Storage.{Storage, get_item, get_item-remove_item}
use org_log.Api.{
  RequestInit, RequestOptions, Response, Outcome, resolved, api_error, rejected, request, prepare,
  settle, get_token, authorize,
}
use org_log.Api.Laws.{IsGood, IsBad, IsLost}
use org_log.Api.Endpoints as Endpoints
use org_log.Api.Endpoints.{Body, Call}
use org_log.Auth.{Detail, Reply, ok, fail, AuthApi, restore, initial}

-- How the caller reads the JSON values: as a user, as an answer to a login, and as the body of an
-- error with its `detail`.
pub record Reading (Json : Type 0) : Type 0 where
  pub to_user : Json → User
  pub to_auth_response : Json → AuthResponse
  pub to_detail : Json → Option Detail

module _ {Json : Type 0} (reading : Reading Json) where
  abbrev detail_of : Option Json → Option Detail
  detail_of none = none
  detail_of (some body) = reading.to_detail body

  -- A settled promise of the client. An error without a body has no `detail`.
  abbrev pub reply_of : {A : Type 0} → (Json → A) → Outcome Json → Reply A
  reply_of read (resolved value) = ok (read value)
  reply_of read (api_error status status_text body) = fail (detail_of body)
  reply_of read rejected = fail none

module _ {Json : Type 0} (reading : Reading Json)
    (fetch : RequestInit Body → Option (Response Json)) (config : ApiConfig) where
  abbrev pub send : Storage → Call → Outcome Json
  send storage call = request fetch config storage call.path call.options

  -- A storage with just a token.
  abbrev with_only : Option String → Storage
  with_only none = []
  with_only (some t) = (auth_token_key, t) ∷ []

  abbrev pub client : AuthApi
  client = record {
    register = λ r. reply_of reading reading.to_user (send [] (Endpoints.register r));
    login = λ r. reply_of reading reading.to_auth_response (send [] (Endpoints.login r));
    me = λ t. reply_of reading reading.to_user (send (with_only t) Endpoints.me);
  }

  skipped :
      (o : Option String) (headers : List (String × String)) → authorize true o headers ≡ headers
  unfolding authorize
  skipped none headers = refl
  skipped (some t) headers = refl

  get_token-with_only : (o : Option String) → get_token (with_only o) ≡ o
  unfolding get_token get_item
  get_token-with_only none = refl
  get_token-with_only (some t) = refl

  -- A request reads nothing of the storage but the token, and not even that if it skips it.
  prepare-token :
      (m n : Storage) (path : String) (options : RequestOptions Body)
      → get_token m ≡ get_token n
      → prepare config m path options ≡ prepare config n path options
  unfolding prepare get_token
  prepare-token m n path options h = rw h refl

  prepare-skipped :
      (m n : Storage) (path : String) (options : RequestOptions Body)
      → options.skip_auth ≡ true
      → prepare config m path options ≡ prepare config n path options
  unfolding prepare
  prepare-skipped m n path options h = rw (h, skipped (get_token m), skipped (get_token n)) refl

  answer_of : {A : Type 0} → (Json → A) → RequestInit Body → Reply A
  answer_of read init = reply_of reading read (settle (fetch init))

  client-me :
      (storage : Storage)
      → reply_of reading reading.to_user (send storage Endpoints.me) ≡ client.me (get_token storage)
  unfolding request answer_of
  client-me storage = ap (answer_of reading.to_user) (
      prepare-token storage (with_only (get_token storage)) Endpoints.me.path Endpoints.me.options
        (sym (get_token-with_only (get_token storage))))

  -- What the client answers depends on the storage only through the token, and for a registration or
  -- a login not at all.
  pub client_lem :
      (storage : Storage) (r : RegisterRequest) (l : LoginRequest)
      → (reply_of reading reading.to_user (send storage (Endpoints.register r)) ≡ client.register r)
        × (reply_of reading reading.to_auth_response (send storage (Endpoints.login l))
            ≡ client.login l)
        × (reply_of reading reading.to_user (send storage Endpoints.me)
            ≡ client.me (get_token storage))
  unfolding request answer_of Endpoints.register Endpoints.login
  client_lem storage r l = (
    ap (answer_of reading.to_user) (
        prepare-skipped storage [] (Endpoints.register r).path (Endpoints.register r).options refl),
    ap (answer_of reading.to_auth_response)
        (prepare-skipped storage [] (Endpoints.login l).path (Endpoints.login l).options refl),
    client-me storage,
  )

  -- The response to `me` of a page that is loaded with a storage.
  abbrev pub me_response : Storage → Option (Response Json)
  me_response storage = fetch (prepare config storage Endpoints.me.path Endpoints.me.options)

  settle_cases :
      (o : Option (Response Json))
      → ((value : Json) × IsGood value o
          × (reply_of reading reading.to_user (settle o) ≡ ok (reading.to_user value)))
        ⊎ ((IsLost o
              ⊎ ((status : ℕ) × (status_text : String) × (body : Option Json) × IsBad status
                    status_text body o))
            × ((d : Option Detail) × (reply_of reading reading.to_user (settle o) ≡ fail d)))
  unfolding settle
  settle_cases none = inr (inl (inl refl), (none, refl))
  settle_cases (some r) = elim (Bool-cases r.ok) [
    | inr e ↦ inr (
      inr (r.status, r.status_text, r.json, (r, refl, e, refl, refl, refl)),
      (detail_of reading r.json, rw e refl),
    )
    | inl e ↦ elim (Option-cases r.json) [
      | inl f ↦ inr (inl (inr (r, refl, e, f)), (none, rw (e, f) refl))
      | inr (v, f) ↦ inl (v, (r, refl, e, f), rw (e, f) refl)
    ]
  ]

  me_cases :
      (storage : Storage)
      → ((value : Json) × IsGood value (me_response storage)
          × (client.me (get_token storage) ≡ ok (reading.to_user value)))
        ⊎ ((IsLost (me_response storage)
              ⊎ ((status : ℕ) × (status_text : String) × (body : Option Json) × IsBad status
                    status_text body
                    (me_response storage)))
            × ((d : Option Detail) × (client.me (get_token storage) ≡ fail d)))
  unfolding request
  me_cases storage = rw (client-me storage) at (settle_cases (me_response storage))

  -- A page is loaded with a token that is not empty. If the response to `me` is good, its user is
  -- signed in and the token kept. In every other case, with an error of any status, or with no response at
  -- all, nobody is signed in and the token is removed.
  pub restore_branches :
      (storage : Storage) (t : String)
      → get_token storage ≡ some t
      → truthy t ≡ true
      → let s = restore client (initial storage) in
        ((value : Json) × IsGood value (me_response storage)
          × (s.user ≡ some (reading.to_user value))
          × (get_token s.storage ≡ some t))
        ⊎ ((IsLost (me_response storage)
              ⊎ ((status : ℕ) × (status_text : String) × (body : Option Json) × IsBad status
                    status_text body
                    (me_response storage)))
            × (s.user ≡ none)
            × (get_token s.storage ≡ none))
  unfolding restore get_token
  restore_branches storage t e f = elim (me_cases storage) [
    | inl (value, good, g) ↦
        let k : client.me (some t) ≡ ok (reading.to_user value) = ap client.me (sym e) ∙ g in
        inl (value, good, rw (e, restore, f, k) refl, rw (e, restore, f, k) e)
    | inr (bad, (d, g)) ↦
        let k : client.me (some t) ≡ fail d = ap client.me (sym e) ∙ g in
        inr (
          bad,
          rw (e, restore, f, k) refl,
          rw (e, restore, f, k) (get_item-remove_item auth_token_key auth_token_key storage),
        )
  ]
