-- ===== src/Auth.antt =====
-- frontend/src/lib/providers/auth-provider.tsx. The answers of the server are a parameter: `me` is
-- given the stored token, which the client sends along. An operation is a sequence of calls and state
-- changes that a rejected call ends, which is the monad `M`; what was done before it stays done.
pub mod Guard
pub mod Pages
pub mod Submit
pub mod Laws
pub mod Backed
pub mod Entry
pub mod Forms
pub mod Client
pub mod Check
use org_log.Prelude.{
  String, Bool, true, false, not, Option, none, some, List, [], ◌∷◌, truthy, is_some, if◌then◌else◌,
}
use org_log.Types.{User, RegisterRequest, LoginRequest, AuthResponse}
use org_log.Config.{auth_token_key}
use org_log.Browser.Storage.{Storage, get_item, set_item, remove_item}

-- The `detail` of an error's body: a text or, of a request that a server does not accept as valid, a list of
-- objects, of which nothing else matters here.
pub data Detail : Type 0 where
  message : String → Detail
  objects : Detail

-- A settled promise of the API; a rejection has the `detail` of its body, if any.
pub data Reply (A : Type 0) : Type 0 where
  ok : A → Reply A
  fail : Option Detail → Reply A

pub record AuthApi : Type 0 where
  pub register : RegisterRequest → Reply User
  pub login : LoginRequest → Reply AuthResponse
  pub me : Option String → Reply User

-- `visited`: the calls of `router.push`, the last first.
pub record Session : Type 0 where
  pub user : Option User
  pub is_loading : Bool
  pub storage : Storage
  pub visited : List String

abbrev pub initial : Storage → Session
initial storage = record { user = none; is_loading = true; storage = storage; visited = [] }

abbrev pub is_authenticated : Session → Bool
is_authenticated s = is_some s.user

abbrev pub token : Session → Option String
token s = get_item auth_token_key s.storage

abbrev pub M : Type 0 → Type 0
M A = Session → Reply A × Session

-- After a call, what follows it if it succeeds.
abbrev pub bind_reply : {A B : Type 0} → Reply A → Session → (A → M B) → Reply B × Session
bind_reply (ok a) s f = f a s
bind_reply (fail d) s f = (fail d, s)

infixl 5 ◌>>=◌ ◌>>◌
abbrev ◌>>=◌ : {A B : Type 0} → M A → (A → M B) → M B
◌>>=◌ m f s = let (r, s') = m s in bind_reply r s' f

abbrev ◌>>◌ : {B : Type 0} → M (Unit {0}) → M B → M B
m >> k = m >>= λ _. k

abbrev call : {A : Type 0} → Reply A → M A
call r s = (r, s)

abbrev store_token : String → M (Unit {0})
store_token t s = (ok tt, record s { storage = set_item auth_token_key t s.storage })

abbrev set_user : User → M (Unit {0})
set_user u s = (ok tt, record s { user = some u })

abbrev push : String → M (Unit {0})
push path s = (ok tt, record s { visited = path ∷ s.visited })

module _ (api : AuthApi) where
  -- `authApi.me()`: the client reads the token when it is called.
  abbrev call_me : M User
  call_me s = (api.me (token s), s)

  unfoldable pub login : LoginRequest → M (Unit {0})
  login request = do
    response ← call (api.login request)
    store_token response.access_token
    user ← call_me
    set_user user
    push "/dashboard"

  unfoldable pub register : RegisterRequest → M (Unit {0})
  register request = do
    created ← call (api.register request)
    response ←
        call
          (api.login (record { email_prefix = request.email_prefix; password = request.password }))
    store_token response.access_token
    user ← call_me
    set_user user
    push "/dashboard"

  -- The effect on mount, if the answer is the next thing that happens.
  unfoldable pub restore : Session → Session
  restore s = elim (token s) [
    | none ↦ record s { is_loading = false }
    | some t ↦ if not (truthy t) then record s { is_loading = false } else elim (api.me (some t)) [
      | ok u ↦ record s { user = some u; is_loading = false }
      | fail d ↦ record s { storage = remove_item auth_token_key s.storage; is_loading = false }
    ]
  ]

-- What the effect does before it waits for `me`: without a token that is not empty the loading is
-- over, else the call is under way.
unfoldable pub start_check : Session → Bool × Session
start_check s = elim (token s) [
  | none ↦ (false, record s { is_loading = false })
  | some t ↦ if truthy t then (true, s) else (false, record s { is_loading = false })
]

-- What it does with the answer, whenever that comes.
unfoldable pub settle_check : Reply User → Session → Session
settle_check (ok u) s = record s { user = some u; is_loading = false }
settle_check (fail d) s = record s {
  storage = remove_item auth_token_key s.storage;
  is_loading = false;
}

-- The call of `authApi.logout`, whose answer is ignored, changes nothing here and is left out.
unfoldable pub logout : Session → Session
logout s = record s {
  storage = remove_item auth_token_key s.storage;
  user = none;
  visited = "/login" ∷ s.visited;
}
