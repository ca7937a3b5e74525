-- ===== src/Api/Types.antt =====
-- What web/src/lib/api.ts sends, receives and throws.
use control_room.Base.{
  ℕ, String, Bool, ◌&&◌, List, [], ◌∷◌, Option, none, some, leb, ◌is◌, if◌then◌else◌, is_some,
}

-- A parsed JSON text. A number stays the text that it was written as.
mutual
  pub data Json : Type 0 where
    null : Json
    bool : Bool → Json
    num : String → Json
    str : String → Json
    arr : Items → Json
    obj : Fields → Json

  pub data Items : Type 0 where
    nil : Items
    cons : Json → Items → Items

  pub data Fields : Type 0 where
    end : Fields
    field : String → Json → Fields → Fields

-- The value under a key; of two fields with one name the later counts.
unfoldable pub get_field : String → Fields → Option Json
get_field k end = none
get_field k (field j v fs) =
    let later = get_field k fs in if is_some later then later else if j is k then some v else none

-- `v?.k` of a value that may be `undefined`.
unfoldable pub get_key : String → Option Json → Option Json
unfolding get_field
get_key k (some (obj fs)) = get_field k fs
get_key k _ = none

-- `v ?? d`
abbrev pub coalesce : Option Json → Json → Json
coalesce (some null) d = d
coalesce (some v) d = v
coalesce none d = d

-- `headers`, under lower-case names, as `Headers` keeps them.
abbrev pub Headers : Type 0
Headers = List (String × String)

unfoldable pub get_header : String → Headers → Option String
get_header k [] = none
get_header k ((j, v) ∷ hs) = if j is k then some v else get_header k hs

unfoldable pub set_header : String → String → Headers → Headers
set_header k v [] = (k, v) ∷ []
set_header k v ((j, w) ∷ hs) = if j is k then (k, v) ∷ hs else (j, w) ∷ set_header k v hs

-- `RequestInit` with `skipRefresh`, as far as the callers use it.
pub record FetchOpts : Type 0 where
  pub method : Option String
  pub headers : Headers
  pub body : Option String
  pub skip_refresh : Bool

-- What goes to `fetch`; `credentials` is `credentials: 'include'`.
pub record Request : Type 0 where
  pub path : String
  pub method : String
  pub headers : Headers
  pub body : Option String
  pub credentials : Bool

-- What `fetch` resolves with; `none` for a text that cannot be read to its end.
pub record Response : Type 0 where
  pub status : ℕ
  pub status_text : String
  pub text : Option String

-- `res.ok`
abbrev pub is_ok : Response → Bool
is_ok r = leb 200 r.status && leb r.status 299

-- `message` is the value handed to `Error`, before it is made a string.
pub record ApiError : Type 0 where
  pub status : ℕ
  pub code : Json
  pub message : Json
  pub detail : Option Json

-- The ways a call rejects: an `ApiError`, the network's `TypeError`, a `URIError` of the cookie.
pub data Thrown : Type 0 where
  api_error : ApiError → Thrown
  network_error uri_error : Thrown

pub data Result {ℓ} (A : Type ℓ) : Type ℓ where
  ok : A → Result A
  err : Thrown → Result A
