-- ===== src/Api.antt =====
-- frontend/src/lib/api/client.ts. `fetch` is a parameter, as is the type of JSON values; the query
-- of a URL is kept as its entries, which `URLSearchParams` encodes.
pub mod Laws
pub mod Endpoints
use Prim.Native.String.{◌++◌ as join}
use org_log.Prelude.{
  ℕ, String, Bool, true, false, not, ◌&&◌, Option, none, some, List, [], ◌∷◌, str_eq, truthy,
  is_some, opt_str_eq, if◌then◌else◌,
}
use org_log.Config.{ApiConfig, auth_token_key}
use org_log.Browser.Storage.{Storage, get_item, set_item}

-- `string | number`
pub data Param : Type 0 where
  text : String → Param
  number : ℕ → Param

pub record Url : Type 0 where
  pub address : String
  pub search_params : List (String × Param)

-- `value !== undefined && value !== ""`
abbrev pub is_sent : Option Param → Bool
is_sent none = false
is_sent (some (text s)) = truthy s
is_sent (some (number n)) = true

-- The loop over `Object.entries(params)`.
unfoldable pub append_params : List (String × Option Param) → List (String × Param)
append_params [] = []
append_params ((key, none) ∷ params) = append_params params
append_params ((key, some value) ∷ params) =
    let rest = append_params params in if is_sent (some value) then (key, value) ∷ rest else rest

-- The configured address is a valid one, so that `new URL` does not throw.
unfoldable pub build_url : ApiConfig → String → List (String × Option Param) → Url
build_url config path params = record {
  address = join config.base_url path;
  search_params = append_params params;
}

-- The body is what `JSON.stringify` is given, an object where there is one; `signal` is left out.
pub record RequestOptions (Body : Type 0) : Type 0 where
  pub method : String
  pub body : Option Body
  pub params : List (String × Option Param)
  pub headers : List (String × String)
  pub skip_auth : Bool

pub record RequestInit (Body : Type 0) : Type 0 where
  pub url : Url
  pub method : String
  pub headers : List (String × String)
  pub body : Option Body
  pub include_credentials : Bool

-- `json`: `none` where `response.json()` rejects.
pub record Response (Json : Type 0) : Type 0 where
  pub ok : Bool
  pub status : ℕ
  pub status_text : String
  pub json : Option Json

pub data Outcome (Json : Type 0) : Type 0 where
  resolved : Json → Outcome Json
  api_error : ℕ → String → Option Json → Outcome Json
  rejected : Outcome Json

-- `getToken` in a browser.
unfoldable pub get_token : Storage → Option String
get_token storage = get_item auth_token_key storage

-- `if (!skipAuth && token)`
unfoldable pub authorize : Bool → Option String → List (String × String) → List (String × String)
authorize skip_auth none headers = headers
authorize skip_auth (some token) headers =
    if not skip_auth && truthy token
    then set_item "Authorization" (join "Bearer " token) headers
    else headers

-- `{ "Content-Type": "application/json", ...headers }`
unfoldable pub spread : List (String × String) → List (String × String) → List (String × String)
spread base [] = base
spread base ((key, value) ∷ headers) = spread (set_item key value base) headers

-- What `request` makes of the response.
unfoldable pub settle : {Json : Type 0} → Option (Response Json) → Outcome Json
settle none = rejected
settle (some response) =
    if not response.ok
    then api_error response.status response.status_text response.json
    else elim response.json [ none ↦ rejected | some value ↦ resolved value ]

module _ {Body : Type 0} where
  unfoldable pub prepare : ApiConfig → Storage → String → RequestOptions Body → RequestInit Body
  unfolding build_url get_token authorize spread
  prepare config storage path options = record {
    url = build_url config path options.params;
    method = options.method;
    headers =
        authorize options.skip_auth (get_token storage)
          (spread (("Content-Type", "application/json") ∷ []) options.headers);
    body = options.body;
    include_credentials = true;
  }

  module _ {Json : Type 0} where
    -- `fetch` gives `none` where it rejects.
    module _ (fetch : RequestInit Body → Option (Response Json)) where
      unfoldable pub request : ApiConfig → Storage → String → RequestOptions Body → Outcome Json
      unfolding prepare settle
      request config storage path options = settle (fetch (prepare config storage path options))

  -- `apiClient`
  abbrev pub get_options : List (String × Option Param) → RequestOptions Body
  get_options params = record {
    method = "GET";
    body = none;
    params = params;
    headers = [];
    skip_auth = false;
  }

  abbrev pub post_options : Body → Bool → RequestOptions Body
  post_options body skip_auth = record {
    method = "POST";
    body = some body;
    params = [];
    headers = [];
    skip_auth = skip_auth;
  }
