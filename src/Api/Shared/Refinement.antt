-- ===== src/Api/Shared/Refinement.antt =====
-- Any events of web/src/lib/api.ts with many calls, carried over to the model of phases.
use control_room.Base.{ℕ, ◌≤◌, ◌<◌, List, [], ◌∷◌, ◌++◌, none, ◌≡◌, refl, arith, ◌∙◌}
use control_room.Api.Fetch.{Browser}
use control_room.Api.Refresh
use control_room.Api.Refresh.{Client}
use control_room.Api.Refresh.Invariant.{Inv, init-Inv, run-Inv, single_flight, requests_bounded}
use control_room.Api.Shared.{State, Event, init, step, run}
use control_room.Api.Shared.Phases.{Agrees, requests_of, events_of}
use control_room.Api.Shared.Simulation.{step-Agrees}

run-append :
    (es fs : List Refresh.Event) (c : Client)
    → Refresh.run (es ++ fs) c ≡ Refresh.run fs (Refresh.run es c)
unfolding Refresh.run
run-append [] fs c = refl
run-append (e ∷ es) fs c = run-append es fs (Refresh.step e c)

init-Agrees : Agrees init Refresh.init
unfolding init Refresh.init
init-Agrees = record {
  slot = refl;
  started = refl;
  outcome = λ k. refl;
  phase = λ i. refl;
  attempts = λ i. omega arith;
}

module _ (b : Browser) where
  -- The events of the model of phases that a list of events stands for.
  unfoldable pub trace : List (Event b) → State → List Refresh.Event
  trace [] s = []
  trace (e ∷ es) s = events_of b e s ++ trace es (step b e s)

  run-Agrees :
      (es : List (Event b)) (s : State) (c : Client)
      → Inv c
      → Agrees s c
      → Agrees (run b es s) (Refresh.run (trace es s) c)
  unfolding run trace Refresh.run
  run-Agrees [] s c u v = v
  run-Agrees (e ∷ es) s c u v = rw (run-append (events_of b e s) (trace es (step b e s)) c) (
      run-Agrees es (step b e s) (Refresh.run (events_of b e s) c) (run-Inv (events_of b e s) c u)
        (step-Agrees b e s c u v))

  -- The calls with all that they carry refine the model of phases: after any events, the slot, the number
  -- of refreshes, their outcomes and the phase of every call are those that the model of phases has after
  -- its trace of the events, and no call has sent more requests than it has there.
  pub run_refines :
      (es : List (Event b)) → Agrees (run b es init) (Refresh.run (trace es init) Refresh.init)
  run_refines es = run-Agrees es init Refresh.init init-Inv init-Agrees

  -- So, after any events, no call has sent more than two requests for itself, and two refreshes that have
  -- no outcome yet are the same one.
  pub shared_bounds :
      (es : List (Event b)) (i j k : ℕ)
      → let s = run b es init in
        (requests_of i s.sent ≤ 2)
        × (j < s.started → k < s.started → s.outcome j ≡ none → s.outcome k ≡ none → j ≡ k)
  shared_bounds es i j k =
      let v = run_refines es in
      let ts = trace es init in
      (
        omega (arith, v.attempts i, (requests_bounded ts i).0),
        λ p q hj hk.
            single_flight ts j k (rw v.started p) (rw v.started q) (v.outcome j ∙ hj)
              (v.outcome k ∙ hk),
      )

  -- The promise that comes next has no outcome.
  pub run-unborn : (es : List (Event b)) → let s = run b es init in s.outcome s.started ≡ none
  run-unborn es =
      let v = run_refines es in
      let c = Refresh.run (trace es init) Refresh.init in
      let u = run-Inv (trace es init) Refresh.init init-Inv in
      ground (arith, v.outcome c.started, v.started, u.unborn c.started)
