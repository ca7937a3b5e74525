-- ===== src/Examples/Calls.antt =====
-- Concrete calls of web/src/lib/api.ts and web/src/lib/csrf.ts.
use control_room.Base.{
  ℕ, Bool, true, false, List, [], ◌∷◌, ◌++◌, Option, none, some, ◌≡◌, refl, arith, All, ◌is◌,
  if◌then◌else◌, ◌<>◌, length,
}
use control_room.Api.Csrf.{read_csrf_cookie, split_cookies, find_token, raw_token}
use control_room.Api.Csrf.Laws.{read_csrf_cookie-join, join_cookies}
use control_room.Api.Types.{obj, end, Request, Response, ok}
use control_room.Api.Fetch.{
  Browser, World, api_fetch, raw_fetch, settle, read_body, refresh_path, refresh_request, no_opts,
  recover, may_refresh, try_refresh, send, build_request, with_csrf, with_content_type, error_of,
}
use control_room.Api.Fetch.Laws.{Exchange, api_fetch-Exchange}
use control_room.Api.Endpoints.{Endpoint, login, path_of, opts_of, request, opens}
use control_room.Api.Endpoints.Refused.{request-opens}
use control_room.Api.Refresh
use control_room.Api.Refresh.{
  Event, call, answer, refresh_answer, resume, clear, expired, first, second, finished, waiting,
  init,
}
use control_room.Api.Refresh.Invariant.{single_flight, waiter_resumes}
use control_room.Api.Refresh.Burst.{expire, burst_shares}

-- A server that knows a session as long as its network says so: a refresh starts a new one.
abbrev serve : Request → Bool → Option Response × Bool
serve r session =
    if r.path is refresh_path
    then (some (record { status = 200; status_text = "OK"; text = some "{}" }), true)
    else if session
    then (some (record { status = 200; status_text = "OK"; text = some "{}" }), session)
    else (some (record { status = 401; status_text = "Unauthorized"; text = some "" }), session)

abbrev browser : Browser
browser = record {
  Net = Bool;
  cookie = λ session. "theme=dark; cr_csrf=abc";
  fetch = serve;
  decode = λ s. some s;
  parse = λ s. if s is "{}" then some (obj end) else none;
  to_upper = λ s. s;
}

abbrev expired_world : World browser
expired_world = record { net = false; sent = [] }

-- The session is expired: the call, a refresh, and the call again.
retries_once : (api_fetch browser "/api/services/" no_opts expired_world).0 ≡ ok (some (obj end))
unfolding api_fetch raw_fetch recover may_refresh try_refresh build_request with_csrf
    with_content_type send settle read_body error_of refresh_request read_csrf_cookie split_cookies
    find_token raw_token
retries_once = refl

api_fetch-Exchange_example :
    (ks : List Request) × ((api_fetch browser "/api/services/" no_opts expired_world).1.sent
      ≡ [] ++ ks)
    × Exchange browser "/api/services/" no_opts expired_world ks
api_fetch-Exchange_example = api_fetch-Exchange browser "/api/services/" no_opts expired_world

-- A login with a wrong password, where a session has expired besides.
abbrev wrong_login : Endpoint
wrong_login = login "ada" "guess" none

refused_once : length (request (λ j. "{}") browser wrong_login expired_world).1.sent ≡ 1
unfolding request api_fetch raw_fetch recover may_refresh build_request with_csrf with_content_type
    send settle read_body error_of read_csrf_cookie split_cookies find_token raw_token path_of
    opts_of
refused_once = refl

request-opens_example :
    request (λ j. "{}") browser wrong_login expired_world
    ≡ raw_fetch browser "/api/auth/login" (opts_of (λ j. "{}") wrong_login) expired_world
unfolding path_of opens
request-opens_example = request-opens (λ j. "{}") browser wrong_login expired_world refl

read_csrf_cookie-join_example :
    read_csrf_cookie browser.decode
      (join_cookies ("theme=dark" ∷ ("cr_csrf=" <> "abc") ∷ "a=b" ∷ []))
    ≡ some "abc"
read_csrf_cookie-join_example =
    read_csrf_cookie-join browser.decode ("theme=dark" ∷ []) "abc" ("a=b" ∷ []) (ground arith)
      (refl, tt)

-- Two calls expire before the refresh is answered.
abbrev two_expired : List Event
two_expired = call 0 ∷ call 1 ∷ answer 0 expired ∷ answer 1 expired ∷ []

single_flight_example : ◌≡◌ {A = ℕ} 0 0
unfolding Refresh.run Refresh.step init
single_flight_example = single_flight two_expired 0 0 (omega arith) (omega arith) refl refl

waiter_resumes_example :
    (Refresh.run (refresh_answer true ∷ resume 1 ∷ []) (Refresh.run two_expired init)).phase 1
    ≡ second
unfolding Refresh.run Refresh.step init
waiter_resumes_example = waiter_resumes two_expired 1 0 true refl

burst_shares_example :
    let c = Refresh.run (call 0 ∷ call 1 ∷ []) init in
    let d = Refresh.run (expire (0 ∷ 1 ∷ [])) c in
    (d.started ≡ 1) × All (λ j. d.phase j ≡ waiting 0) (0 ∷ 1 ∷ [])
unfolding Refresh.run Refresh.step init
burst_shares_example =
    burst_shares 0 (1 ∷ []) (Refresh.run (call 0 ∷ call 1 ∷ []) init) refl (refl, (refl, tt))
