-- ===== src/Api/Refresh.antt =====
-- web/src/lib/api.ts with many calls at once: the module variable `refreshInFlight` that they share.
-- An event is a point at which the browser resumes one of the asynchronous functions; an event that
-- is not due changes nothing.
pub mod Invariant
pub mod Burst
use control_room.Base.{
  ℕ, suc, ◌+◌, Bool, true, false, List, [], ◌∷◌, Option, none, some, ◌==◌, if◌then◌else◌,
}

-- Where a call of `apiFetch` stands. `waiting k` awaits the promise of refresh number `k`.
pub data Phase : Type 0 where
  idle first second finished : Phase
  waiting : ℕ → Phase

-- What the first request of a call leads to: `expired` is the error that may be refreshed.
pub data Answer : Type 0 where
  settled expired : Answer

pub data Event : Type 0 where
  call : ℕ → Event
  answer : ℕ → Answer → Event
  refresh_answer : Bool → Event
  clear : Event
  resume : ℕ → Event
  second_answer : ℕ → Event

pub record Client : Type 0 where
  -- `refreshInFlight`, by the number of the promise
  pub slot : Option ℕ
  -- how many promises were made, each by one request to the refresh path
  pub started : ℕ
  -- how many calls came to `tryRefresh`
  pub asked : ℕ
  pub outcome : ℕ → Option Bool
  pub phase : ℕ → Phase
  -- how many requests each call has sent for itself
  pub attempts : ℕ → ℕ

abbrev pub update {ℓ} : {A : Type ℓ} → (ℕ → A) → ℕ → A → ℕ → A
update f i v j = if j == i then v else f j

unfoldable pub init : Client
init = record {
  slot = none;
  started = 0;
  asked = 0;
  outcome = λ _. none;
  phase = λ _. idle;
  attempts = λ _. 0;
}

abbrev sends : ℕ → Phase → Client → Client
sends i p c = record c {
  phase = update c.phase i p;
  attempts = update c.attempts i (suc (c.attempts i));
}

-- `tryRefresh` for call `i`: it joins the refresh in flight, or starts one.
join : Option ℕ → ℕ → Client → Client
join (some k) i c = record c { asked = suc c.asked; phase = update c.phase i (waiting k) }
join none i c = record c {
  slot = some c.started;
  started = suc c.started;
  asked = suc c.asked;
  phase = update c.phase i (waiting c.started);
}

on_answer : Phase → Answer → ℕ → Client → Client
unfolding join
on_answer first settled i c = record c { phase = update c.phase i finished }
on_answer first expired i c = join c.slot i c
on_answer _ _ i c = c

-- `return res.ok` or `return false`, which settles the promise.
on_refresh_answer : Option ℕ → Bool → Client → Client
on_refresh_answer none ok c = c
on_refresh_answer (some k) ok c = elim (c.outcome k) [
  | none ↦ record c { outcome = update c.outcome k (some ok) }
  | some _ ↦ c
]

-- The microtask that the `finally` queued: due once the promise is settled.
on_clear : Option ℕ → Client → Client
on_clear none c = c
on_clear (some k) c = elim (c.outcome k) [ none ↦ c | some _ ↦ record c { slot = none } ]

-- `const refreshed = await tryRefresh()` goes on.
resumed : Option Bool → ℕ → Client → Client
resumed none i c = c
resumed (some true) i c = sends i second c
resumed (some false) i c = record c { phase = update c.phase i finished }

on_resume : Phase → ℕ → Client → Client
unfolding resumed
on_resume (waiting k) i c = resumed (c.outcome k) i c
on_resume _ i c = c

on_call : Phase → ℕ → Client → Client
on_call idle i c = sends i first c
on_call _ i c = c

on_second_answer : Phase → ℕ → Client → Client
on_second_answer second i c = record c { phase = update c.phase i finished }
on_second_answer _ i c = c

unfoldable pub step : Event → Client → Client
unfolding on_answer on_refresh_answer on_clear on_resume on_call on_second_answer
step (call i) c = on_call (c.phase i) i c
step (answer i a) c = on_answer (c.phase i) a i c
step (refresh_answer ok) c = on_refresh_answer c.slot ok c
step clear c = on_clear c.slot c
step (resume i) c = on_resume (c.phase i) i c
step (second_answer i) c = on_second_answer (c.phase i) i c

unfoldable pub run : List Event → Client → Client
run [] c = c
run (e ∷ es) c = run es (step e c)
