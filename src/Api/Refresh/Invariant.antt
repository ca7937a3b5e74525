-- ===== src/Api/Refresh/Invariant.antt =====
-- What holds of `refreshInFlight` in web/src/lib/api.ts under every interleaving of calls.
use control_room.Base.{
  ℕ, suc, Bool, List, [], ◌∷◌, none, some, ◌≡◌, refl, arith, ◌≤◌, ◌<◌, or_default, if◌then◌else◌,
}
use control_room.Api.Refresh.{
  Phase, idle, first, second, finished, waiting, Event, refresh_answer, resume, Client, init, step,
  run,
}

-- How many requests a call in a phase has sent, at most.
abbrev pub quota : Phase → ℕ
quota idle = 0
quota first = 1
quota (waiting k) = 1
quota second = 2
quota finished = 2

pub record Inv (c : Client) : Type 0 where
  pub slot_last : (k : ℕ) → c.slot ≡ some k → suc k ≡ c.started
  pub flight_in_slot : (k : ℕ) → k < c.started → c.outcome k ≡ none → c.slot ≡ some k
  pub unborn : (k : ℕ) → c.started ≤ k → c.outcome k ≡ none
  pub waits_known : (i k : ℕ) → c.phase i ≡ waiting k → k < c.started
  pub started_by_need : c.started ≤ c.asked
  pub within_quota : (i : ℕ) → c.attempts i ≤ quota (c.phase i)

pub init-Inv : Inv init
unfolding init
init-Inv = record {
  slot_last = λ k h. cc;
  flight_in_slot = λ k h. absurd (omega arith);
  unborn = λ k h. refl;
  waits_known = λ i k h. cc;
  started_by_need = omega arith;
  within_quota = λ i. omega arith;
}

pub step-Inv : (e : Event) (c : Client) → Inv c → Inv (step e c)
unfolding step
step-Inv e c v = record {
  slot_last = λ k h. ground (arith, v.slot_last k, v.unborn c.started);
  flight_in_slot = λ k l h. ground (arith, v.flight_in_slot k, v.slot_last k, v.unborn c.started);
  unborn = λ k h. ground (arith, v.unborn k, v.slot_last k);
  waits_known = λ i k h. ground (arith, v.waits_known i k, v.slot_last k);
  started_by_need = ground (arith, v.started_by_need);
  within_quota = λ i. ground (arith, v.within_quota i);
}

pub run-Inv : (es : List Event) (c : Client) → Inv c → Inv (run es c)
unfolding run
run-Inv [] c v = v
run-Inv (e ∷ es) c v = run-Inv es (step e c) (step-Inv e c v)

-- Whatever happens in whatever order, two refreshes that have no answer yet are the same one: at most
-- one request to the refresh path is in flight.
pub single_flight :
    (es : List Event) (j k : ℕ)
    → let c = run es init in
      j < c.started → k < c.started → c.outcome j ≡ none → c.outcome k ≡ none → j ≡ k
single_flight es j k p q hj hk =
    let v = run-Inv es init init-Inv in
    ground (arith, v.flight_in_slot j p hj, v.flight_in_slot k q hk)

-- After any events, a call has sent at most two requests for itself, and there were no more refreshes
-- than calls that asked for one.
pub requests_bounded :
    (es : List Event) (i : ℕ) → let c = run es init in (c.attempts i ≤ 2) × (c.started ≤ c.asked)
requests_bounded es i =
    let v = run-Inv es init init-Inv in (ground (arith, v.within_quota i), v.started_by_need)

-- A call that waits for a refresh always goes on: once the refresh in flight is answered, resuming the
-- call takes it to its second request exactly if the refresh that it waits for was answered with
-- success, now or before, and to its end otherwise.
pub waiter_resumes :
    (es : List Event) (i k : ℕ) (ok : Bool)
    → (run es init).phase i ≡ waiting k
    → let c = run es init in
      (run (refresh_answer ok ∷ resume i ∷ []) c).phase i
      ≡ (if or_default (c.outcome k) ok then second else finished)
unfolding run step
waiter_resumes es i k ok h =
    let v = run-Inv es init init-Inv in ground (arith, v.flight_in_slot k (v.waits_known i k h))
