-- ===== src/Containers/Live.antt =====
-- `useContainerLiveStats` of web/src/components/containers/ContainerCard.tsx: the figures of a container
-- over a socket, which is open while the container runs. `A` is what a frame is parsed as.
use control_room.Base.{
  String, Bool, true, false, List, [], ◌∷◌, Option, none, some, if◌then◌else◌, ◌≡◌, refl, arith,
  Bool-cases, inl, inr,
}

-- The open socket by the container that it was opened for, and what the card shows.
pub record Live (A : Type 0) : Type 0 where
  pub id : String
  pub is_enabled : Bool
  pub socket : Option String
  pub stats : Option A

-- A frame is `none` where `JSON.parse` throws.
pub data Event (A : Type 0) : Type 0 where
  set_enabled : Bool → Event A
  frame : Option A → Event A
  unmount : Event A

unfoldable pub same : Bool → Bool → Bool
same true b = b
same false true = false
same false false = true

module _ {A : Type 0} where
  -- The effect, after its cleanup has closed the socket.
  unfoldable pub effect : Bool → Live A → Live A
  effect true s = record s { is_enabled = true; socket = some s.id }
  effect false s = record s { is_enabled = false; socket = none; stats = none }

  -- `ws.onmessage`, of an open socket.
  unfoldable pub on_frame : Option String → Option A → Live A → Live A
  on_frame none f s = s
  on_frame (some i) none s = s
  on_frame (some i) (some a) s = record s { stats = some a }

  unfoldable pub step : Event A → Live A → Live A
  unfolding effect same on_frame
  step (set_enabled b) s = if same b s.is_enabled then s else effect b s
  step (frame f) s = on_frame s.socket f s
  step unmount s = record s { socket = none }

  unfoldable pub run : List (Event A) → Live A → Live A
  run [] s = s
  run (e ∷ es) s = run es (step e s)

  -- The first render.
  unfoldable pub open_live : String → Bool → Live A
  unfolding effect
  open_live i b = effect b (record { id = i; is_enabled = b; socket = none; stats = none })

  -- A container that does not run has no socket, and its card shows no figures.
  pub record Inv (s : Live A) : Type 0 where
    pub no_socket : s.is_enabled ≡ false → s.socket ≡ none
    pub no_stats : s.is_enabled ≡ false → s.stats ≡ none

  effect-Inv : (b : Bool) (s : Live A) → Inv (effect b s)
  unfolding effect
  effect-Inv true s = record {
    no_socket = λ e. ground (arith, e);
    no_stats = λ e. ground (arith, e);
  }
  effect-Inv false s = record { no_socket = λ e. refl; no_stats = λ e. refl }

  on_frame-Inv :
      (o : Option String) (f : Option A) (s : Live A) → s.socket ≡ o → Inv s → Inv (on_frame o f s)
  unfolding on_frame
  on_frame-Inv none f s p v = v
  on_frame-Inv (some i) none s p v = v
  on_frame-Inv (some i) (some a) s p v = record {
    no_socket = v.no_socket;
    no_stats = λ e. absurd (ground (arith, p, v.no_socket e));
  }

  step-Inv : (e : Event A) (s : Live A) → Inv s → Inv (step e s)
  unfolding step
  step-Inv (set_enabled b) s v = elim (Bool-cases (same b s.is_enabled)) [
    | inl e ↦ rw e v
    | inr e ↦ rw e (effect-Inv b s)
  ]
  step-Inv (frame f) s v = on_frame-Inv s.socket f s refl v
  step-Inv unmount s v = record { no_socket = λ e. refl; no_stats = v.no_stats }

  run-Inv : (es : List (Event A)) (s : Live A) → Inv s → Inv (run es s)
  unfolding run
  run-Inv [] s v = v
  run-Inv (e ∷ es) s v = run-Inv es (step e s) (step-Inv e s v)

  -- Whatever frames arrive, and however often the container starts and stops, a card shows no figures
  -- and holds no socket while the container does not run.
  pub live-Inv : (i : String) (b : Bool) (es : List (Event A)) → Inv (run es (open_live i b))
  unfolding open_live
  live-Inv i b es = run-Inv es _ (effect-Inv b _)
