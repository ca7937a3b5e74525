-- ===== src/Api/Endpoints.antt =====
-- web/src/lib/api.ts: the table `api` of the calls that the setup, the login and the session make.
-- `stringify` is `JSON.stringify`.
pub mod Refused
use control_room.Base.{String, Bool, true, false, [], Option, none, some}
use control_room.Api.Types.{Json, str, obj, Fields, end, field, FetchOpts, Result}
use control_room.Api.Fetch.{Browser, World, no_opts, api_fetch}

-- The secret of a second factor and the code that was typed for it.
pub record Totp : Type 0 where
  pub secret : String
  pub code : String

pub data Endpoint : Type 0 where
  version : Endpoint
  healthz : Endpoint
  setup_status : Endpoint
  setup_verify_token : String → Endpoint
  setup_totp_preview : String → Endpoint
  setup_complete : String → String → Option Totp → Endpoint
  login : String → String → Option String → Endpoint
  logout : Endpoint
  me : Endpoint
  totp_enroll : Endpoint
  totp_verify : Totp → Endpoint
  totp_disable : String → Endpoint

unfoldable pub path_of : Endpoint → String
path_of version = "/api/version"
path_of healthz = "/api/healthz"
path_of setup_status = "/api/setup/status"
path_of (setup_verify_token token) = "/api/setup/verify-token"
path_of (setup_totp_preview username) = "/api/setup/2fa/preview"
path_of (setup_complete username password totp) = "/api/setup/complete"
path_of (login username password totp) = "/api/auth/login"
path_of logout = "/api/auth/logout"
path_of me = "/api/auth/me"
path_of totp_enroll = "/api/auth/2fa/enroll"
path_of (totp_verify t) = "/api/auth/2fa/verify"
path_of (totp_disable password) = "/api/auth/2fa/disable"

abbrev factor : Totp → Fields
factor t = field "secret" (str t.secret) (field "code" (str t.code) end)

-- `JSON.stringify` leaves a field out whose value is `undefined`.
abbrev factor_field : Option Totp → Fields
factor_field none = end
factor_field (some t) = field "totp" (obj (factor t)) end

abbrev code_field : Option String → Fields
code_field none = end
code_field (some code) = field "totp" (str code) end

abbrev post : Option String → FetchOpts
post body = record { method = some "POST"; headers = []; body = body; skip_refresh = false }

module _ (stringify : Json → String) where
  abbrev post_json : Fields → FetchOpts
  post_json fs = post (some (stringify (obj fs)))

  unfoldable pub opts_of : Endpoint → FetchOpts
  opts_of (setup_verify_token token) = post_json (field "token" (str token) end)
  opts_of (setup_totp_preview username) = post_json (field "username" (str username) end)
  opts_of (setup_complete username password totp) =
      post_json
        (field "username" (str username) (field "password" (str password) (factor_field totp)))
  opts_of (login username password totp) =
      post_json
        (field "username" (str username) (field "password" (str password) (code_field totp)))
  opts_of logout = post none
  opts_of totp_enroll = post none
  opts_of (totp_verify t) = post_json (factor t)
  opts_of (totp_disable password) = post_json (field "password" (str password) end)
  opts_of _ = no_opts

  unfoldable pub request : (b : Browser) → Endpoint → World b → Result (Option Json) × World b
  unfolding path_of opts_of
  request b c w = api_fetch b (path_of c) (opts_of c) w

-- The calls that need no session yet: a 401 tells them that what was typed is wrong.
unfoldable pub opens : Endpoint → Bool
opens setup_status = true
opens (setup_verify_token token) = true
opens (setup_totp_preview username) = true
opens (setup_complete username password totp) = true
opens (login username password totp) = true
opens _ = false
