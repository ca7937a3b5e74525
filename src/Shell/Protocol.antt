-- ===== src/Shell/Protocol.antt =====
-- What the terminals of web/src/routes/Terminal.tsx and PodExecModal.tsx send on their sockets.
use control_room.Base.{
  ℕ, ◌<◌, String, List, [], ◌∷◌, ◌++◌, none, some, ◌≡◌, ◌≢◌, refl, arith, ℕ_discrete,
}
use control_room.Shell.{
  absent, pending, live, Frame, hello, resize, bytes, Shell, Event, on_open, on_text, input,
  on_resize, rebuild, press_reconnect, mount, step, run,
}

module _ {H : Type 0} where
  -- Nothing was sent, or the first frame is the greeting `h`.
  abbrev pub OpensWith : H → List (Frame H) → Type 0
  OpensWith h [] = Unit
  OpensWith h (hello k ∷ fs) = k ≡ h
  OpensWith h (_ ∷ fs) = ⊥

  OpensWith-append :
      (h : H) (fs : List (Frame H)) (f : Frame H)
      → fs ≢ []
      → OpensWith h fs
      → OpensWith h (fs ++ f ∷ [])
  OpensWith-append h [] f n o = absurd (n refl)
  OpensWith-append h (hello k ∷ fs) f n o = o
  OpensWith-append h (resize r c ∷ fs) f n o = o
  OpensWith-append h (bytes d ∷ fs) f n o = o

  append-ne-nil : (fs : List (Frame H)) (f : Frame H) → fs ++ f ∷ [] ≢ []
  append-ne-nil [] f e = cc
  append-ne-nil (g ∷ fs) f e = cc

  pub record Inv (s : Shell H) : Type 0 where
    pub silent_before : (j : ℕ) → s.socket j ≡ pending → s.sent j ≡ []
    pub greeted : (j : ℕ) → s.socket j ≡ live → s.sent j ≢ []
    pub greeting_first : (j : ℕ) → OpensWith (s.first j) (s.sent j)
    pub unborn : (j : ℕ) → s.generation < j → s.socket j ≡ absent
    pub unsent : (j : ℕ) → s.generation < j → s.sent j ≡ []

  mount-Inv : (h : H) → Inv (mount h)
  unfolding mount
  mount-Inv h = record {
    silent_before = λ j e. refl;
    greeted = λ j e. ground arith;
    greeting_first = λ j. tt;
    unborn = λ j l. ground arith;
    unsent = λ j l. refl;
  }

  module _ (fallback : String) where
    step-greeted :
        (e : Event H) (s : Shell H) (j : ℕ)
        → Inv s
        → (step fallback e s).socket j ≡ live
        → (step fallback e s).sent j ≢ []
    unfolding step
    step-greeted (on_open g) s j v p =
        ground (arith, v.greeted j, append-ne-nil (s.sent g) (hello (s.first g)))
    step-greeted (input d) s j v p =
        ground (arith, v.greeted j, append-ne-nil (s.sent s.generation) (bytes d))
    step-greeted (on_resize r c) s j v p =
        ground (arith, v.greeted j, append-ne-nil (s.sent s.generation) (resize r c))
    step-greeted (on_text g none) s j v p = ground (arith, v.greeted j)
    step-greeted (on_text g (some n)) s j v p = ground (arith, v.greeted j)
    step-greeted _ s j v p = ground (arith, v.greeted j)

    step-first :
        (e : Event H) (s : Shell H) (j : ℕ)
        → Inv s
        → OpensWith ((step fallback e s).first j) ((step fallback e s).sent j)
    unfolding step
    step-first (on_open g) s j v = elim (ℕ_discrete j g) [
      | yes same ↦ ground (arith, v.greeting_first j, v.silent_before j, v.silent_before g)
      | no other ↦ ground (arith, v.greeting_first j)
    ]
    step-first (input d) s j v =
        ground (
          arith,
          v.greeting_first j,
          v.greeted j,
          OpensWith-append (s.first j) (s.sent j) (bytes d),
        )
    step-first (on_resize r c) s j v = ground (
      arith,
      v.greeting_first j,
      v.greeted j,
      OpensWith-append (s.first j) (s.sent j) (resize r c),
    )
    step-first (rebuild h) s j v = ground (arith, v.greeting_first j, v.unsent j)
    step-first (press_reconnect h) s j v = ground (arith, v.greeting_first j, v.unsent j)
    step-first (on_text g none) s j v = ground (arith, v.greeting_first j)
    step-first (on_text g (some n)) s j v = ground (arith, v.greeting_first j)
    step-first _ s j v = ground (arith, v.greeting_first j)

    step-Inv : (e : Event H) (s : Shell H) → Inv s → Inv (step fallback e s)
    unfolding step
    step-Inv e s v = record {
      silent_before = λ j p. ground (arith, v.silent_before j, v.unborn j, v.unsent j);
      greeted = λ j p. step-greeted e s j v p;
      greeting_first = λ j. step-first e s j v;
      unborn = λ j p. ground (arith, v.unborn j);
      unsent = λ j p. ground (arith, v.unsent j, v.unborn j);
    }

    run-Inv : (es : List (Event H)) (s : Shell H) → Inv s → Inv (run fallback es s)
    unfolding run
    run-Inv [] s v = v
    run-Inv (e ∷ es) s v = run-Inv es (step fallback e s) (step-Inv e s v)

    -- On every socket of a terminal, of this generation and of all earlier ones, the first frame is
    -- the greeting of that generation, whatever is typed or resized while sockets open and close.
    pub greeting_comes_first :
        (h : H) (es : List (Event H)) (j : ℕ)
        → let s = run fallback es (mount h) in OpensWith (s.first j) (s.sent j)
    greeting_comes_first h es j = (run-Inv es (mount h) (mount-Inv h)).greeting_first j
