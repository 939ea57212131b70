-- ===== src/Api/Laws.antt =====
-- What a request carries, and the kinds of a response.
use Prim.Native.String.{◌++◌ as join}
use org_log.Prelude.{
  ℕ, ◌≡◌, ◌↔◌, ◌⊎◌, refl, ap, String, Bool, true, false, not, ◌&&◌, Option, none, some, List, [],
  ◌∷◌, truthy, inl, inr, if◌then◌else◌, arith, Option-cases, Bool-cases, Has,
}
use org_log.Config.{ApiConfig}
use org_log.Browser.Storage.{Storage, get_item, set_item}
use org_log.Api.{
  Param, is_sent, append_params, RequestOptions, Response, get_token, authorize, prepare,
}

module _ (key k : String) (value v : Param) where
  sent :
      ◌≡◌ {A = String × Param} (key, value) (k, v)
      → is_sent (some v) ≡ true
      → is_sent (some value) ≡ true
  sent p e = rw (ap (λ q. q.1) p) e

  unsent :
      ◌≡◌ {A = String × Option Param} (key, some value) (k, some v)
      → is_sent (some v) ≡ false
      → is_sent (some value) ≡ true
      → ⊥
  unsent p e h = cc (ap is_sent (ap (λ q. q.1) p))

-- The query of a URL carries a parameter exactly if it was given with a value that is neither
-- undefined nor the empty text.
pub mem-append_params :
    (key : String) (value : Param) (params : List (String × Option Param))
    → Has (key, value) (append_params params)
      ↔ (Has (key, some value) params × (is_sent (some value) ≡ true))
unfolding append_params
mem-append_params key value [] = (λ h. absurd h, λ h. absurd h.0)
mem-append_params key value ((k, none) ∷ params) =
    let (to, from) = mem-append_params key value params in
    (λ h. (inr (to h).0, (to h).1), λ h. from (elim h.0 [ inl e ↦ absurd (cc) | inr m ↦ m ], h.1))
mem-append_params key value ((k, some v) ∷ params) =
    let (to, from) = mem-append_params key value params in
    elim (Bool-cases (is_sent (some v))) [
      | inl e ↦ rw e (
        λ h. elim h [
          | inl p ↦ (inl (cc), sent key k value v p e)
          | inr m ↦ (inr (to m).0, (to m).1)
        ],
        λ h. elim h.0 [ inl p ↦ inl (cc) | inr m ↦ inr (from (m, h.1)) ],
      )
      | inr e ↦ rw e (
        λ m. (inr (to m).0, (to m).1),
        λ h. elim h.0 [ inl p ↦ absurd (unsent key k value v p e h.1) | inr m ↦ from (m, h.1) ],
      )
    ]

-- What the `Authorization` header should be.
abbrev pub bearer : Bool → Option String → Option String
bearer skip_auth none = none
bearer skip_auth (some token) =
    if not skip_auth && truthy token then some (join "Bearer " token) else none

given :
    (skip_auth : Bool) (token : String)
    → get_item "Authorization"
        (authorize skip_auth (some token) (("Content-Type", "application/json") ∷ []))
      ≡ bearer skip_auth (some token)
unfolding authorize get_item set_item
given skip_auth token = ground arith

-- A request without headers of its own carries `Bearer` and the stored token exactly if it does not
-- skip the authorization and the token is there and not empty; otherwise it has no such header.
pub authorization :
    {Body : Type 0} (config : ApiConfig) (storage : Storage) (path : String)
    (options : RequestOptions Body)
    → options.headers ≡ []
    → get_item "Authorization" (prepare config storage path options).headers
      ≡ bearer options.skip_auth (get_token storage)
unfolding prepare get_item
authorization config storage path options h = elim (Option-cases (get_token storage)) [
  | inl e ↦ rw (h, e) refl
  | inr (t, e) ↦ rw (h, e) (given options.skip_auth t)
]

-- A response that is ok and has the JSON of a value.
abbrev pub IsGood : {Json : Type 0} → Json → Option (Response Json) → Type 0
IsGood {Json} value o = (r : Response Json) × (o ≡ some r) × (r.ok ≡ true) × (r.json ≡ some value)

-- A response that is not ok, with a status, its text and its JSON, if it has any.
abbrev pub IsBad : {Json : Type 0} → ℕ → String → Option Json → Option (Response Json) → Type 0
IsBad {Json} status status_text body o =
    (r : Response Json) × (o ≡ some r)
    × (r.ok ≡ false)
    × (r.status ≡ status)
    × (r.status_text ≡ status_text)
    × (r.json ≡ body)

-- No response, or one that is ok without JSON.
abbrev pub IsLost : {Json : Type 0} → Option (Response Json) → Type 0
IsLost {Json} o =
    (o ≡ none) ⊎ ((r : Response Json) × (o ≡ some r) × (r.ok ≡ true) × (r.json ≡ none))
