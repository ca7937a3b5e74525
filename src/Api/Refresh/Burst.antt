-- ===== src/Api/Refresh/Burst.antt =====
-- Calls of web/src/lib/api.ts that expire together.
use control_room.Base.{ℕ, suc, List, [], ◌∷◌, none, some, map, ◌≡◌, refl, ◌∙◌, arith, ◌⊎◌, All}
use control_room.Api.Refresh.{first, waiting, expired, Event, answer, Client, step, run}

abbrev pub expire : List ℕ → List Event
expire = map (λ i. answer i expired)

module _ (k : ℕ) where
  step-joins :
      (c : Client) (i j : ℕ)
      → c.slot ≡ some k
      → (c.phase j ≡ first) ⊎ (c.phase j ≡ waiting k)
      → let d = step (answer i expired) c in (d.phase j ≡ first) ⊎ (d.phase j ≡ waiting k)
  unfolding step
  step-joins c i j s h = ground arith

  step-keeps :
      (c : Client) (i : ℕ)
      → c.slot ≡ some k
      → let d = step (answer i expired) c in (d.slot ≡ some k) × (d.started ≡ c.started)
  unfolding step
  step-keeps c i s = ground arith

  step-waits :
      (c : Client) (i : ℕ)
      → c.slot ≡ some k
      → (c.phase i ≡ first) ⊎ (c.phase i ≡ waiting k)
      → (step (answer i expired) c).phase i ≡ waiting k
  unfolding step
  step-waits c i s h = ground arith

  step-stays :
      (c : Client) (i j : ℕ)
      → c.phase j ≡ waiting k
      → (step (answer i expired) c).phase j ≡ waiting k
  unfolding step
  step-stays c i j h = ground arith

  run-stays :
      (is : List ℕ) (c : Client) (j : ℕ)
      → c.phase j ≡ waiting k
      → (run (expire is) c).phase j ≡ waiting k
  unfolding run
  run-stays [] c j h = h
  run-stays (i ∷ is) c j h = run-stays is (step (answer i expired) c) j (step-stays c i j h)

  All-joins :
      (js : List ℕ) (c : Client) (i : ℕ)
      → c.slot ≡ some k
      → All (λ j. (c.phase j ≡ first) ⊎ (c.phase j ≡ waiting k)) js
      → let d = step (answer i expired) c in
        All (λ j. (d.phase j ≡ first) ⊎ (d.phase j ≡ waiting k)) js
  All-joins [] c i s h = tt
  All-joins (j ∷ js) c i s (h, hs) = (step-joins c i j s h, All-joins js c i s hs)

  run-joins :
      (is : List ℕ) (c : Client)
      → c.slot ≡ some k
      → All (λ j. (c.phase j ≡ first) ⊎ (c.phase j ≡ waiting k)) is
      → let d = run (expire is) c in
        (d.slot ≡ some k) × (d.started ≡ c.started) × All (λ j. d.phase j ≡ waiting k) is
  unfolding run
  run-joins [] c s h = (s, refl, tt)
  run-joins (i ∷ is) c s (h, hs) =
      let d = step (answer i expired) c in
      let kept = step-keeps c i s in
      let (slot, same, wait) = run-joins is d kept.0 (All-joins is c i s hs) in
      (slot, same ∙ kept.1, (run-stays is d i (step-waits c i s h), wait))

first_asks :
    (c : Client) (i : ℕ)
    → c.slot ≡ none
    → c.phase i ≡ first
    → let d = step (answer i expired) c in (d.slot ≡ some c.started) × (d.started ≡ suc c.started)
unfolding step
first_asks c i s h = ground arith

first_or_waits :
    (c : Client) (i j : ℕ)
    → c.slot ≡ none
    → c.phase i ≡ first
    → c.phase j ≡ first
    → let d = step (answer i expired) c in (d.phase j ≡ first) ⊎ (d.phase j ≡ waiting c.started)
unfolding step
first_or_waits c i j s h g = ground arith

All-first :
    (js : List ℕ) (c : Client) (i : ℕ)
    → c.slot ≡ none
    → c.phase i ≡ first
    → All (λ j. c.phase j ≡ first) js
    → let d = step (answer i expired) c in
      All (λ j. (d.phase j ≡ first) ⊎ (d.phase j ≡ waiting c.started)) js
All-first [] c i s h hs = tt
All-first (j ∷ js) c i s h (g, gs) = (first_or_waits c i j s h g, All-first js c i s h gs)

first_waits :
    (c : Client) (i : ℕ)
    → c.slot ≡ none
    → c.phase i ≡ first
    → (step (answer i expired) c).phase i ≡ waiting c.started
unfolding step
first_waits c i s h = ground arith

-- Any number of calls that are all answered by a 401 before the refresh is answered start exactly one
-- refresh, and all of them wait for that one.
pub burst_shares :
    (i : ℕ) (is : List ℕ) (c : Client)
    → c.slot ≡ none
    → All (λ j. c.phase j ≡ first) (i ∷ is)
    → let d = run (expire (i ∷ is)) c in
      (d.started ≡ suc c.started) × All (λ j. d.phase j ≡ waiting c.started) (i ∷ is)
unfolding run
burst_shares i is c s (h, hs) =
    let d = step (answer i expired) c in
    let asked = first_asks c i s h in
    let (slot, same, wait) = run-joins c.started is d asked.0 (All-first is c i s h hs) in
    (same ∙ asked.1, (run-stays c.started is d i (first_waits c i s h), wait))
