-- ===== src/Stats/Laws.antt =====
-- The sockets and timers of `useSystemStatsWS` in web/src/lib/system.ts.
use control_room.Base.{
  ℕ, zero, suc, ◌+◌, ◌*◌, ◌^◌, ◌≤◌, ◌<◌, min, true, false, none, some, List, [], ◌∷◌, ◌≡◌, ◌≢◌,
  refl, ◌∙◌, arith, ◌⊎◌, inl, inr,
}
use control_room.Stats.{
  Socket, connecting, live, closing, closed, Link, Event, on_close, timer_fires, cleanup, delay,
  connect, init, step, run,
}

delay_table : (n : ℕ) → n < 6 → delay n ≡ 500 * 2 ^ n
unfolding delay
delay_table zero h = refl
delay_table (suc zero) h = refl
delay_table (suc (suc zero)) h = refl
delay_table (suc (suc (suc zero))) h = refl
delay_table (suc (suc (suc (suc zero)))) h = refl
delay_table (suc (suc (suc (suc (suc zero))))) h = refl
delay_table (suc (suc (suc (suc (suc (suc n)))))) h = absurd (omega arith)

delay_full : (n : ℕ) → 6 ≤ n → delay n ≡ 30_000
unfolding delay
delay_full n h = rw (full n h) refl
  where
    full : (m : ℕ) → 6 ≤ m → min m 6 ≡ 6
    full m p = omega arith

-- The delay before a new attempt is 500 ms times a power of two for the first five failures in a
-- row, and 30 seconds from the sixth on.
pub delay_exact : (n : ℕ) → (n < 6 → delay n ≡ 500 * 2 ^ n) × (6 ≤ n → delay n ≡ 30_000)
delay_exact n = (delay_table n, delay_full n)

delay_least : (n : ℕ) → 0 < n → 1000 ≤ delay n
delay_least zero h = absurd (omega arith)
delay_least (suc zero) h = omega (arith, delay_table 1)
delay_least (suc (suc zero)) h = omega (arith, delay_table 2)
delay_least (suc (suc (suc zero))) h = omega (arith, delay_table 3)
delay_least (suc (suc (suc (suc zero)))) h = omega (arith, delay_table 4)
delay_least (suc (suc (suc (suc (suc zero))))) h = omega (arith, delay_table 5)
delay_least (suc (suc (suc (suc (suc (suc n)))))) h =
    omega (arith, delay_full (suc (suc (suc (suc (suc (suc n)))))))

delay_most : (n : ℕ) → delay n ≤ 30_000
unfolding delay
delay_most n = omega arith

abbrev pub IsActive : Socket → Type 0
IsActive s = (s ≡ connecting) ⊎ (s ≡ live) ⊎ (s ≡ closing)

module _ {A : Type 0} where
  pub record Inv (l : Link A) : Type 0 where
    pub one_at_a_time : (d : ℕ) → l.timer ≡ some d → l.socket ≡ closed
    pub timer_in_range : (d : ℕ) → l.timer ≡ some d → (1000 ≤ d) × (d ≤ 30_000)
    pub not_idle : l.stopped ≡ false → (l.timer ≢ none) ⊎ IsActive l.socket
    pub quiet : l.stopped ≡ true → l.timer ≡ none

  init-Inv : Inv (init {A = A})
  unfolding init
  init-Inv = record {
    one_at_a_time = λ d h. cc;
    timer_in_range = λ d h. cc;
    not_idle = λ h. inr (inl refl);
    quiet = λ h. cc;
  }

  step-Inv : (e : Event A) (l : Link A) → Inv l → Inv (step e l)
  unfolding step
  step-Inv e l v = record {
    one_at_a_time = λ d h. ground (arith, v.one_at_a_time d);
    timer_in_range = λ d h.
        ground
          (arith, v.timer_in_range d, delay_least (suc l.attempts), delay_most (suc l.attempts));
    not_idle = λ h. ground (arith, v.not_idle, v.quiet);
    quiet = λ h. ground (arith, v.quiet);
  }

  run-Inv : (es : List (Event A)) (l : Link A) → Inv l → Inv (run es l)
  unfolding run
  run-Inv [] l v = v
  run-Inv (e ∷ es) l v = run-Inv es (step e l) (step-Inv e l v)

  -- Whatever happens to the sockets, the link never gives up and never doubles: until it is stopped
  -- there is a socket in use or a timer for the next one, a timer is pending only while the last
  -- socket is closed, its delay lies between one and thirty seconds, and none is pending once the
  -- link is stopped.
  pub run-init-Inv : (es : List (Event A)) → Inv (run es init)
  run-init-Inv es = run-Inv es init init-Inv

  stopped-step :
      (e : Event A) (l : Link A)
      → l.stopped ≡ true
      → let k = step e l in (k.stopped ≡ true) × (k.opened ≡ l.opened)
  unfolding step
  stopped-step e l h = ground arith

  stopped-run :
      (es : List (Event A)) (l : Link A)
      → l.stopped ≡ true
      → let k = run es l in (k.stopped ≡ true) × (k.opened ≡ l.opened)
  unfolding run
  stopped-run [] l h = (h, refl)
  stopped-run (e ∷ es) l h =
      let (still, same) = stopped-step e l h in
      let (end, all) = stopped-run es (step e l) still in (end, all ∙ same)

  -- After the cleanup, no event whatsoever opens another socket.
  pub cleanup_stops :
      (l : Link A) (es : List (Event A)) → (run es (step cleanup l)).opened ≡ l.opened
  unfolding step
  cleanup_stops l es = (stopped-run es (step cleanup l) refl).1

  -- A link whose socket fails at every attempt: the socket closes, and the timer fires.
  pub outage : ℕ → List (Event A)
  outage zero = []
  outage (suc n) = on_close ∷ timer_fires ∷ outage n

  outage_step :
      (l : Link A)
      → l.stopped ≡ false
      → l.socket ≡ connecting
      → let k = run (on_close ∷ timer_fires ∷ []) l in
        (k.stopped ≡ false)
        × (k.socket ≡ connecting)
        × (k.attempts ≡ suc l.attempts)
        × (k.opened ≡ suc l.opened)
  unfolding run step connect
  outage_step l h s = ground arith

  -- Through an outage of any length each failure leads to one new attempt, and the failures are
  -- counted.
  pub outage_retries :
      (n : ℕ) (l : Link A)
      → l.stopped ≡ false
      → l.socket ≡ connecting
      → let k = run (outage n) l in
        (k.socket ≡ connecting) × (k.attempts ≡ n + l.attempts) × (k.opened ≡ n + l.opened)
  unfolding run outage
  outage_retries zero l h s = ground arith
  outage_retries (suc n) l h s =
      let (go, again, counted, opens) = outage_step l h s in
      let (a, b, c) = outage_retries n (run (on_close ∷ timer_fires ∷ []) l) go again in
      (a, omega arith, omega arith)
