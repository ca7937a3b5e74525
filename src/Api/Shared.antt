-- ===== src/Api/Shared.antt =====
-- web/src/lib/api.ts with many calls at once and all that they carry: the options, the requests, the
-- errors that are thrown again and the results, with `refreshInFlight` between them. An event is a point at
-- which the browser resumes one of the asynchronous functions; it comes with what `fetch` answered and
-- with the network, whose cookie jar the code that then runs may read. An event that is not due changes
-- nothing.
pub mod Phases
pub mod Simulation
pub mod Refinement
pub mod Equations
pub mod Steps
pub mod Solo
use control_room.Base.{
  ℕ, suc, String, Bool, true, false, List, [], ◌∷◌, Option, none, some, ◌==◌, if◌then◌else◌,
}
use control_room.Api.Csrf.{read_csrf_cookie}
use control_room.Api.Types.{Json, FetchOpts, Request, Response, Thrown, uri_error, Result, ok, err}
use control_room.Api.Fetch.{
  Browser, World, build_request, settle, may_refresh, refresh_request, is_ok_answer,
}
use control_room.Api.Refresh.{update}

-- Where a call stands, with what it still needs. `waiting` awaits the promise of a refresh, given by its
-- number, and keeps the error that it may have to throw.
pub data Stage : Type 0 where
  idle : Stage
  first : String → FetchOpts → Stage
  waiting : String → FetchOpts → Thrown → ℕ → Stage
  second : Stage
  finished : Result (Option Json) → Stage

-- A request and the call that sent it for itself; `none` for a refresh.
pub record Sent : Type 0 where
  pub by : Option ℕ
  pub request : Request

pub record State : Type 0 where
  -- `refreshInFlight`, by the number of the promise
  pub slot : Option ℕ
  -- how many promises were made
  pub started : ℕ
  pub outcome : ℕ → Option Bool
  pub stage : ℕ → Stage
  -- the requests that were sent, the last one first
  pub sent : List Sent

unfoldable pub init : State
init = record { slot = none; started = 0; outcome = λ _. none; stage = λ _. idle; sent = [] }

abbrev pub finish : ℕ → Result (Option Json) → State → State
finish i r s = record s { stage = update s.stage i (finished r) }

-- `rawFetch` of call `i` up to its `await fetch`, after which the call stands at the given stage.
unfoldable pub attempt : Option Request → Stage → ℕ → State → State
attempt none g i s = finish i (err uri_error) s
attempt (some r) g i s = record s {
  stage = update s.stage i g;
  sent = record { by = some i; request = r } ∷ s.sent;
}

-- The body of the asynchronous function in `tryRefresh`, up to its `await fetch`.
unfoldable pub start_refresh : Option String → State → State
start_refresh none s = record s {
  slot = some s.started;
  started = suc s.started;
  outcome = update s.outcome s.started (some false);
}
start_refresh (some token) s = record s {
  slot = some s.started;
  started = suc s.started;
  sent = record { by = none; request = refresh_request token } ∷ s.sent;
}

unfoldable pub on_refresh_answer : Option ℕ → Bool → State → State
on_refresh_answer none refreshed s = s
on_refresh_answer (some k) refreshed s = elim (s.outcome k) [
  | none ↦ record s { outcome = update s.outcome k (some refreshed) }
  | some _ ↦ s
]

-- The microtask that the `finally` queued.
unfoldable pub on_clear : Option ℕ → State → State
on_clear none s = s
on_clear (some k) s = elim (s.outcome k) [ none ↦ s | some _ ↦ record s { slot = none } ]

module _ (b : Browser) where
  pub data Event : Type 0 where
    call : ℕ → String → FetchOpts → b.Net → Event
    answer : ℕ → Option Response → b.Net → Event
    refresh_answer : Option Response → Event
    clear : Event
    resume : ℕ → b.Net → Event
    second_answer : ℕ → Option Response → Event

  abbrev pub with_net : b.Net → World b
  with_net n = record { net = n; sent = [] }

  -- `await tryRefresh()` of a call that has thrown `e`.
  unfoldable pub join : Option ℕ → String → FetchOpts → Thrown → ℕ → b.Net → State → State
  unfolding start_refresh
  join (some k) path opts e i n s = record s { stage = update s.stage i (waiting path opts e k) }
  join none path opts e i n s =
      start_refresh (read_csrf_cookie b.decode (b.cookie n))
        (record s { stage = update s.stage i (waiting path opts e s.started) })

  -- `rawFetch` after its `await`, and the `catch` of `apiFetch`.
  unfoldable pub returned : Result (Option Json) → String → FetchOpts → ℕ → b.Net → State → State
  unfolding join may_refresh
  returned (ok body) path opts i n s = finish i (ok body) s
  returned (err e) path opts i n s =
      if may_refresh path opts e then join s.slot path opts e i n s else finish i (err e) s

  unfoldable pub on_call : Stage → ℕ → String → FetchOpts → b.Net → State → State
  unfolding attempt
  on_call idle i path opts n s =
      attempt (build_request b path opts (with_net n)) (first path opts) i s
  on_call _ i path opts n s = s

  unfoldable pub on_answer : Stage → ℕ → Option Response → b.Net → State → State
  unfolding returned
  on_answer (first path opts) i a n s = returned (settle b.parse a) path opts i n s
  on_answer _ i a n s = s

  -- `if (refreshed) … throw err`
  unfoldable pub resumed : Option Bool → String → FetchOpts → Thrown → ℕ → b.Net → State → State
  unfolding attempt
  resumed none path opts e i n s = s
  resumed (some true) path opts e i n s =
      attempt (build_request b path (record opts { skip_refresh = true }) (with_net n)) second i s
  resumed (some false) path opts e i n s = finish i (err e) s

  unfoldable pub on_resume : Stage → ℕ → b.Net → State → State
  unfolding resumed
  on_resume (waiting path opts e k) i n s = resumed (s.outcome k) path opts e i n s
  on_resume _ i n s = s

  unfoldable pub on_second_answer : Stage → ℕ → Option Response → State → State
  on_second_answer second i a s = finish i (settle b.parse a) s
  on_second_answer _ i a s = s

  unfoldable pub step : Event → State → State
  unfolding on_call on_answer on_refresh_answer on_clear on_resume on_second_answer
  step (call i path opts n) s = on_call (s.stage i) i path opts n s
  step (answer i a n) s = on_answer (s.stage i) i a n s
  step (refresh_answer a) s = on_refresh_answer s.slot (is_ok_answer a) s
  step clear s = on_clear s.slot s
  step (resume i n) s = on_resume (s.stage i) i n s
  step (second_answer i a) s = on_second_answer (s.stage i) i a s

  unfoldable pub run : List Event → State → State
  run [] s = s
  run (e ∷ es) s = run es (step e s)
