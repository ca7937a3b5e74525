-- ===== src/Examples/Together.antt =====
-- Concrete calls that share `refreshInFlight`, with all that they carry.
use control_room.Base.{
  Bool, true, false, List, [], ◌∷◌, Option, none, some, ◌≡◌, refl, ◌is◌, if◌then◌else◌,
}
use control_room.Api.Csrf.{read_csrf_cookie, split_cookies, find_token, raw_token}
use control_room.Api.Types.{obj, end, Request, Response}
use control_room.Api.Fetch.{
  Browser, World, no_opts, refresh_path, api_fetch, build_request, with_csrf, with_content_type,
  settle, read_body, error_of, may_refresh,
}
use control_room.Api.Refresh
use control_room.Api.Shared
use control_room.Api.Shared.{Event, finished, call, answer, init}
use control_room.Api.Shared.Phases.{Agrees}
use control_room.Api.Shared.Refinement.{trace, run_refines}
use control_room.Api.Shared.Equations.{requests}
use control_room.Api.Shared.Solo.{solo, alone-eq-api_fetch}

abbrev unauthorized : Option Response
unauthorized = some (record { status = 401; status_text = "Unauthorized"; text = some "" })

-- A server that knows a session as long as its network says so: a refresh starts a new one.
abbrev serve : Request → Bool → Option Response × Bool
serve r session =
    if r.path is refresh_path
    then (some (record { status = 200; status_text = "OK"; text = some "{}" }), true)
    else if session
    then (some (record { status = 200; status_text = "OK"; text = some "{}" }), session)
    else (unauthorized, session)

abbrev browser : Browser
browser = record {
  Net = Bool;
  cookie = λ session. "theme=dark; cr_csrf=abc";
  fetch = serve;
  decode = λ s. some s;
  parse = λ s. if s is "{}" then some (obj end) else none;
  to_upper = λ s. s;
}

-- A call of the setup is refused.
abbrev before : List (Event browser)
before = call 1 "/api/setup/status" no_opts false ∷ answer 1 unauthorized false ∷ []

abbrev world : World browser
world = record { net = false; sent = requests (Shared.run browser before init).sent }

run_refines_example :
    Agrees (Shared.run browser before init) (Refresh.run (trace browser before init) Refresh.init)
run_refines_example = run_refines browser before

alone-eq-api_fetch_example :
    let s = Shared.run browser before init in
    let t = Shared.run browser (solo browser "/api/services/" no_opts 0 world) s in
    (t.stage 0 ≡ finished (api_fetch browser "/api/services/" no_opts world).0)
    × ((api_fetch browser "/api/services/" no_opts world).1.sent ≡ requests t.sent)
unfolding Shared.run Shared.step init build_request with_csrf with_content_type settle read_body
    error_of may_refresh read_csrf_cookie split_cookies find_token raw_token
alone-eq-api_fetch_example =
    alone-eq-api_fetch browser "/api/services/" no_opts 0 before world refl refl refl
