-- ===== src/Api/Shared/Phases.antt =====
-- The calls of web/src/lib/api.ts with all that they carry, seen as the phases of Api/Refresh.antt: how the
-- states correspond, and which events of that model an event stands for.
use control_room.Base.{
  ℕ, ◌+◌, ◌≤◌, String, Bool, true, false, List, [], ◌∷◌, Option, none, some, ◌==◌, if◌then◌else◌,
  ◌≡◌,
}
use control_room.Api.Csrf.{read_csrf_cookie}
use control_room.Api.Types.{Json, FetchOpts, Request, Response, Result, ok, err}
use control_room.Api.Fetch.{Browser, build_request, settle, may_refresh, is_ok_answer}
use control_room.Api.Refresh
use control_room.Api.Refresh.{Phase, Client, settled, expired}
use control_room.Api.Shared.{
  Stage, idle, first, waiting, second, finished, Sent, State, Event, call, answer, refresh_answer,
  clear, resume, second_answer, with_net,
}

-- What a stage is in the model of phases.
abbrev pub phase_of : Stage → Phase
phase_of idle = Phase.idle
phase_of (first path opts) = Phase.first
phase_of (waiting path opts e k) = Phase.waiting k
phase_of second = Phase.second
phase_of (finished r) = Phase.finished

abbrev pub is_by : ℕ → Option ℕ → Bool
is_by i none = false
is_by i (some j) = j == i

-- The requests that a call has sent for itself.
abbrev pub requests_of : ℕ → List Sent → ℕ
requests_of i [] = 0
requests_of i (x ∷ xs) = (if is_by i x.by then 1 else 0) + requests_of i xs

-- The states of the two models agree; a call has sent at most what it has there.
pub record Agrees (s : State) (c : Client) : Type 0 where
  pub slot : c.slot ≡ s.slot
  pub started : c.started ≡ s.started
  pub outcome : (k : ℕ) → c.outcome k ≡ s.outcome k
  pub phase : (i : ℕ) → c.phase i ≡ phase_of (s.stage i)
  pub attempts : (i : ℕ) → requests_of i s.sent ≤ c.attempts i

-- A call whose request cannot be made has thrown at once.
abbrev pub sent_or : Option Request → Refresh.Event → Refresh.Event → List Refresh.Event
sent_or (some r) e f = e ∷ []
sent_or none e f = e ∷ f ∷ []

-- A refresh that is started without a token has failed at once.
abbrev pub started_or : Option ℕ → Option String → Refresh.Event → List Refresh.Event
started_or (some k) token e = e ∷ []
started_or none (some token) e = e ∷ []
started_or none none e = e ∷ Refresh.refresh_answer false ∷ []

module _ (b : Browser) where
  abbrev pub calling : Stage → ℕ → String → FetchOpts → b.Net → List Refresh.Event
  calling idle i path opts n =
      sent_or (build_request b path opts (with_net b n)) (Refresh.call i) (Refresh.answer i settled)
  calling _ i path opts n = []

  abbrev pub returning :
      Result (Option Json) → String → FetchOpts → ℕ → Option ℕ → Option String → List Refresh.Event
  returning (ok body) path opts i slot token = Refresh.answer i settled ∷ []
  returning (err e) path opts i slot token =
      if may_refresh path opts e
      then started_or slot token (Refresh.answer i expired)
      else Refresh.answer i settled ∷ []

  abbrev pub answering : Stage → ℕ → Option Response → Option ℕ → Option String → List Refresh.Event
  answering (first path opts) i a slot token = returning (settle b.parse a) path opts i slot token
  answering _ i a slot token = []

  abbrev pub going_on : Option Bool → String → FetchOpts → ℕ → b.Net → List Refresh.Event
  going_on (some true) path opts i n =
      sent_or (build_request b path (record opts { skip_refresh = true }) (with_net b n))
        (Refresh.resume i) (Refresh.second_answer i)
  going_on _ path opts i n = Refresh.resume i ∷ []

  abbrev pub resuming : Stage → ℕ → b.Net → State → List Refresh.Event
  resuming (waiting path opts e k) i n s = going_on (s.outcome k) path opts i n
  resuming _ i n s = []

  unfoldable pub events_of : Event b → State → List Refresh.Event
  events_of (call i path opts n) s = calling (s.stage i) i path opts n
  events_of (answer i a n) s =
      answering (s.stage i) i a s.slot (read_csrf_cookie b.decode (b.cookie n))
  events_of (refresh_answer a) s = Refresh.refresh_answer (is_ok_answer a) ∷ []
  events_of clear s = Refresh.clear ∷ []
  events_of (resume i n) s = resuming (s.stage i) i n s
  events_of (second_answer i a) s = Refresh.second_answer i ∷ []
