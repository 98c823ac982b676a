-- ===== src/Client.antt =====
-- The Reddit client of crates/api/src/client.rs: its errors, the JSON that it reads, and what it
-- takes from other crates. An operation returns its result with the calls that it has made of the
-- network and of the OAuth manager, in their order.
pub mod Path
pub mod Request
pub mod Fetch
pub mod Cached
pub mod Proxy
mod Examples
use neddit.Prelude.{ℕ, Bool, List, [], ◌∷◌, ◌++◌, Option, none, some, Str, str_eq, if◌then◌else◌}
use neddit.Prelude.Int.{ℤ}
use neddit.Search.Thing.{F64}
use neddit.Oauth.{AuthError}
use neddit.Storage.Cache.Json.{Answer, value, failure}

-- `ClientError`, without the errors of the libraries that it carries
pub data ClientError : Type 0 where
  timeout body_too_large invalid_envelope build_client response_build : ClientError
  unexpected_status : Str → (status : ℕ) → ClientError
  auth : AuthError → ClientError
  request : (url : Str) → ClientError
  invalid_proxy_url : (url : Str) → ClientError
  invalid_redirect missing_redirect_location too_many_redirects body decode : Str → ClientError
  rate_limited : (reset : Option Str) → ClientError
  unauthorized suspended quarantined gated private banned : ClientError
  upstream_unavailable : (status : ℕ) → ClientError
  reddit : (code : ℤ) → (reason message path : Str) → ClientError

-- `serde_json::Value`; `number` is a number that is no `i64`.
mutual
  pub data Json : Type 0 where
    null number : Json
    boolean : Bool → Json
    integer : ℤ → Json
    string : Str → Json
    array : Items → Json
    object : Fields → Json

  pub data Items : Type 0 where
    nil : Items
    cons : Json → Items → Items

  pub data Fields : Type 0 where
    end : Fields
    field : Str → Json → Fields → Fields

get_field : Str → Fields → Option Json
get_field key end = none
get_field key (field name v rest) =
    let other = get_field key rest in if str_eq name key then some v else other

-- `json.get(key)`
unfoldable pub get : Json → Str → Option Json
unfolding get_field
get (object fields) key = get_field key fields
get v key = none

abbrev or_null : Option Json → Json
or_null none = Json.null
or_null (some v) = v

-- `json[key]`
unfoldable pub at : Json → Str → Json
unfolding get
at v key = or_null (get v key)

-- The calls that an operation makes.
pub data Action : Type 0 where
  acquire : Action
  send : (url : Str) → Action
  observe : (generation remaining : ℕ) → (reset_after : Option Str) → Action
  invalidate : (generation : ℕ) → Action

abbrev pub Traced : Type 0 → Type 0
Traced A = Answer ClientError A × List Action

abbrev pub and_then : {A B : Type 0} → Traced A → (A → Traced B) → Traced B
and_then (failure e, actions) k = (failure e, actions)
and_then (value x, actions) k = let (y, more) = k x in (y, actions ++ more)

pub record Response : Type 0 where
  pub status : ℕ
  pub headers : Str → Option (List ℕ)
  pub content_length : Option ℕ
  -- The pieces of the body; `none` is an error of the network.
  pub chunks : List (Option (List ℕ))

-- The other crates and the arithmetic of `f64`.
pub record Libs : Type 0 where
  -- `HeaderValue::to_str`
  pub to_str : List ℕ → Option Str
  -- `percent_encode(bytes, CONTROLS)`
  pub percent_encode : List ℕ → Str
  -- `form_urlencoded::parse`, and its `Serializer`
  pub form_parse : Str → List (Str × Str)
  pub form_serialize : List (Str × Str) → Str
  -- `parse::<f64>().ok()?.floor()`, and a cast of a number from 0 to 65535
  pub parse_floor : Str → Option F64
  pub to_u16 : F64 → ℕ
  -- `parse::<f64>()`, for a number of seconds that is a `Duration`
  pub is_seconds : Str → Bool
  -- `serde_json::from_slice`
  pub from_slice : List ℕ → Option Json
  -- `String::from_utf8_lossy`
  pub from_utf8 : List ℕ → Str
  -- `crate::storage::fingerprint` of a text in UTF-8: SHA-256
  pub fingerprint : Str → Str

-- The network, by the number of the request; `none` is an error of the network. A lease is the
-- number of its generation.
pub record Net : Type 0 where
  pub acquire : ℕ → Answer AuthError ℕ
  pub send : ℕ → Str → Option Response
  pub post : ℕ → Str → Json → Option Response
