-- ===== src/Api/Endpoints/Refused.antt =====
-- web/src/lib/api.ts: which calls of the table `api` answer a 401 by a refresh.
use control_room.Base.{String, true, false, ◌≡◌, refl, inl, inr, if◌then◌else◌, ◌||◌, arith}
use control_room.Api.Types.{Json, Thrown}
use control_room.Api.Fetch.{Browser, World, is_unauthorized, has_prefix, may_refresh, raw_fetch}
use control_room.Api.Fetch.Results.{api_fetch-eq-raw_fetch}
use control_room.Api.Endpoints.{
  Endpoint, setup_status, setup_complete, login, path_of, opts_of, request, opens,
}

module _ (stringify : Json → String) where
  -- Of the calls of the table, those of the setup and of the login never refresh; each other refreshes
  -- exactly for a 401.
  pub may_refresh_by_endpoint :
      (c : Endpoint) (e : Thrown)
      → may_refresh (path_of c) (opts_of stringify c) e
        ≡ (if opens c then false else is_unauthorized e)
  unfolding may_refresh path_of opts_of opens
  may_refresh_by_endpoint (setup_complete username password totp) e = ground arith
  may_refresh_by_endpoint (login username password totp) e = ground arith
  may_refresh_by_endpoint _ e = ground arith

  opens-excepted :
      (c : Endpoint)
      → opens c ≡ true
      → (has_prefix (path_of c) "/api/setup" || has_prefix (path_of c) "/api/auth/login") ≡ true
  unfolding path_of opens
  opens-excepted setup_status free = refl
  opens-excepted (login username password totp) free = refl
  opens-excepted _ free = ground arith

  -- A call of the setup or of the login resolves with what its bare request does and sends no other
  -- request, whatever the server answers and whatever was typed.
  pub request-opens :
      (b : Browser) (c : Endpoint) (w : World b)
      → opens c ≡ true
      → request stringify b c w ≡ raw_fetch b (path_of c) (opts_of stringify c) w
  unfolding request
  request-opens b c w free = elim (api_fetch-eq-raw_fetch b (path_of c) (opts_of stringify c) w) [
    | inl same ↦ same
    | inr expired ↦ ground (arith, opens-excepted c free, expired.not_setup, expired.not_login)
  ]
