-- ===== src/Api/Shared/Simulation.antt =====
-- The calls of web/src/lib/api.ts with all that they carry go on as their phases in Api/Refresh.antt do.
use control_room.Base.{
  ℕ, String, Bool, [], ◌∷◌, Option, none, some, ◌≡◌, refl, arith, Bool-cases, inl, inr,
}
use control_room.Api.Csrf.{read_csrf_cookie}
use control_room.Api.Types.{Json, FetchOpts, Response, Thrown, Result, ok, err}
use control_room.Api.Fetch.{Browser, settle, may_refresh, is_ok_answer}
use control_room.Api.Refresh
use control_room.Api.Refresh.{Phase, Client, settled, expired}
use control_room.Api.Refresh.Invariant.{Inv}
use control_room.Api.Shared.{
  Stage, idle, first, waiting, second, finished, State, Event, finish, call, answer, refresh_answer,
  clear, resume, second_answer, attempt, start_refresh, join, returned, on_call, on_answer,
  on_refresh_answer, on_clear, resumed, on_resume, on_second_answer, step,
}
use control_room.Api.Shared.Phases.{
  Agrees, started_or, calling, returning, answering, going_on, resuming, events_of,
}

module _ (b : Browser) where
  call-Agrees :
      (g : Stage) (i : ℕ) (path : String) (opts : FetchOpts) (n : b.Net) (s : State) (c : Client)
      → s.stage i ≡ g
      → Agrees s c
      → Agrees (on_call b g i path opts n s) (Refresh.run (calling b g i path opts n) c)
  unfolding on_call attempt Refresh.run Refresh.step
  call-Agrees idle i path opts n s c h v = record {
    slot = ground (arith, v.slot, v.phase i);
    started = ground (arith, v.started, v.phase i);
    outcome = λ k. ground (arith, v.outcome k, v.phase i);
    phase = λ j. ground (arith, v.phase j, v.phase i);
    attempts = λ j. ground (arith, v.attempts j, v.phase i);
  }
  call-Agrees (first p o) i path opts n s c h v = v
  call-Agrees (waiting p o e k) i path opts n s c h v = v
  call-Agrees second i path opts n s c h v = v
  call-Agrees (finished r) i path opts n s c h v = v

  join-Agrees :
      (slot : Option ℕ) (token : Option String) (path : String) (opts : FetchOpts) (e : Thrown)
      (i : ℕ) (n : b.Net) (s : State) (c : Client)
      → Inv c
      → s.stage i ≡ first path opts
      → s.slot ≡ slot
      → read_csrf_cookie b.decode (b.cookie n) ≡ token
      → Agrees s c
      → Agrees
          (join b slot path opts e i n s)
          (Refresh.run (started_or slot token (Refresh.answer i expired)) c)
  unfolding join start_refresh Refresh.run Refresh.step
  join-Agrees slot token path opts e i n s c u f h t v = record {
    slot = ground (arith, v.slot, v.phase i, u.unborn c.started, v.started);
    started = ground (arith, v.slot, v.phase i, u.unborn c.started, v.started);
    outcome = λ k. ground (arith, v.slot, v.phase i, u.unborn c.started, v.started, v.outcome k);
    phase = λ j. ground (arith, v.slot, v.phase i, u.unborn c.started, v.started, v.phase j);
    attempts = λ j. ground (arith, v.slot, v.phase i, u.unborn c.started, v.started, v.attempts j);
  }

  finish-Agrees :
      (path : String) (opts : FetchOpts) (r : Result (Option Json)) (i : ℕ) (s : State) (c : Client)
      → s.stage i ≡ first path opts
      → Agrees s c
      → Agrees (finish i r s) (Refresh.run (Refresh.answer i settled ∷ []) c)
  unfolding Refresh.run Refresh.step
  finish-Agrees path opts r i s c f v = record {
    slot = ground (arith, v.slot, v.phase i);
    started = ground (arith, v.started, v.phase i);
    outcome = λ k. ground (arith, v.phase i, v.outcome k);
    phase = λ j. ground (arith, v.phase i, v.phase j);
    attempts = λ j. ground (arith, v.phase i, v.attempts j);
  }

  returned-Agrees :
      (r : Result (Option Json)) (path : String) (opts : FetchOpts) (i : ℕ) (n : b.Net) (s : State)
      (c : Client)
      → Inv c
      → s.stage i ≡ first path opts
      → Agrees s c
      → Agrees (returned b r path opts i n s) (
          Refresh.run (returning b r path opts i s.slot (read_csrf_cookie b.decode (b.cookie n))) c)
  unfolding returned
  returned-Agrees (ok body) path opts i n s c u f v = finish-Agrees path opts (ok body) i s c f v
  returned-Agrees (err e) path opts i n s c u f v = elim (Bool-cases (may_refresh path opts e)) [
    | inl may ↦ rw may (
        join-Agrees s.slot (read_csrf_cookie b.decode (b.cookie n)) path opts e i n s c u f refl
          refl v)
    | inr may ↦ rw may (finish-Agrees path opts (err e) i s c f v)
  ]

  answer-Agrees :
      (g : Stage) (i : ℕ) (a : Option Response) (n : b.Net) (s : State) (c : Client)
      → Inv c
      → s.stage i ≡ g
      → Agrees s c
      → Agrees
          (on_answer b g i a n s)
          (Refresh.run (answering b g i a s.slot (read_csrf_cookie b.decode (b.cookie n))) c)
  unfolding on_answer Refresh.run
  answer-Agrees (first p o) i a n s c u h v =
      unfold Refresh.run in returned-Agrees (settle b.parse a) p o i n s c u h v
  answer-Agrees idle i a n s c u h v = v
  answer-Agrees (waiting p o e k) i a n s c u h v = v
  answer-Agrees second i a n s c u h v = v
  answer-Agrees (finished r) i a n s c u h v = v

  refresh-Agrees :
      (slot : Option ℕ) (done : Bool) (s : State) (c : Client)
      → s.slot ≡ slot
      → Agrees s c
      → Agrees (on_refresh_answer slot done s) (Refresh.run (Refresh.refresh_answer done ∷ []) c)
  unfolding on_refresh_answer Refresh.run Refresh.step
  refresh-Agrees slot done s c h v = record {
    slot = ground (arith, v.slot, v.outcome);
    started = ground (arith, v.slot, v.started, v.outcome);
    outcome = λ k. ground (arith, v.slot, v.outcome k, v.outcome);
    phase = λ j. ground (arith, v.slot, v.phase j, v.outcome);
    attempts = λ j. ground (arith, v.slot, v.attempts j, v.outcome);
  }

  clear-Agrees :
      (slot : Option ℕ) (s : State) (c : Client)
      → s.slot ≡ slot
      → Agrees s c
      → Agrees (on_clear slot s) (Refresh.run (Refresh.clear ∷ []) c)
  unfolding on_clear Refresh.run Refresh.step
  clear-Agrees none s c h v = record {
    slot = ground (arith, v.slot);
    started = ground (arith, v.slot, v.started);
    outcome = λ k. ground (arith, v.slot, v.outcome k);
    phase = λ j. ground (arith, v.slot, v.phase j);
    attempts = λ j. ground (arith, v.slot, v.attempts j);
  }
  clear-Agrees (some l) s c h v = record {
    slot = ground (arith, v.slot, v.outcome l);
    started = ground (arith, v.slot, v.started, v.outcome l);
    outcome = λ k. ground (arith, v.slot, v.outcome k, v.outcome l);
    phase = λ j. ground (arith, v.slot, v.phase j, v.outcome l);
    attempts = λ j. ground (arith, v.slot, v.attempts j, v.outcome l);
  }

  resumed-Agrees :
      (o : Option Bool) (path : String) (opts : FetchOpts) (e : Thrown) (k i : ℕ) (n : b.Net)
      (s : State) (c : Client)
      → s.stage i ≡ waiting path opts e k
      → s.outcome k ≡ o
      → Agrees s c
      → Agrees (resumed b o path opts e i n s) (Refresh.run (going_on b o path opts i n) c)
  unfolding resumed attempt Refresh.run Refresh.step
  resumed-Agrees o path opts e k i n s c h p v = record {
    slot = ground (arith, v.slot, v.phase i, v.outcome k);
    started = ground (arith, v.started, v.phase i, v.outcome k);
    outcome = λ l. ground (arith, v.phase i, v.outcome k, v.outcome l);
    phase = λ j. ground (arith, v.phase i, v.outcome k, v.phase j);
    attempts = λ j. ground (arith, v.phase i, v.outcome k, v.attempts j);
  }

  resume-Agrees :
      (g : Stage) (i : ℕ) (n : b.Net) (s : State) (c : Client)
      → s.stage i ≡ g
      → Agrees s c
      → Agrees (on_resume b g i n s) (Refresh.run (resuming b g i n s) c)
  unfolding on_resume Refresh.run
  resume-Agrees (waiting p o e k) i n s c h v =
      resumed-Agrees (s.outcome k) p o e k i n s c h refl v
  resume-Agrees idle i n s c h v = v
  resume-Agrees (first p o) i n s c h v = v
  resume-Agrees second i n s c h v = v
  resume-Agrees (finished r) i n s c h v = v

  second-Agrees :
      (g : Stage) (i : ℕ) (a : Option Response) (s : State) (c : Client)
      → s.stage i ≡ g
      → Agrees s c
      → Agrees (on_second_answer b g i a s) (Refresh.run (Refresh.second_answer i ∷ []) c)
  unfolding on_second_answer Refresh.run Refresh.step
  second-Agrees g i a s c h v = record {
    slot = ground (arith, v.slot, v.phase i);
    started = ground (arith, v.started, v.phase i);
    outcome = λ l. ground (arith, v.phase i, v.outcome l);
    phase = λ j. ground (arith, v.phase i, v.phase j);
    attempts = λ j. ground (arith, v.phase i, v.attempts j);
  }

  -- An event leads to states that agree again, where the model of phases takes the events that it
  -- stands for.
  pub step-Agrees :
      (e : Event b) (s : State) (c : Client)
      → Inv c
      → Agrees s c
      → Agrees (step b e s) (Refresh.run (events_of b e s) c)
  unfolding step events_of
  step-Agrees (call i path opts n) s c u v = call-Agrees (s.stage i) i path opts n s c refl v
  step-Agrees (answer i a n) s c u v = answer-Agrees (s.stage i) i a n s c u refl v
  step-Agrees (refresh_answer a) s c u v = refresh-Agrees s.slot (is_ok_answer a) s c refl v
  step-Agrees clear s c u v = clear-Agrees s.slot s c refl v
  step-Agrees (resume i n) s c u v = resume-Agrees (s.stage i) i n s c refl v
  step-Agrees (second_answer i a) s c u v = second-Agrees (s.stage i) i a s c refl v
