-- ===== src/Shell.antt =====
-- The terminals in the browser: web/src/routes/Terminal.tsx and
-- web/src/components/k8s/PodExecModal.tsx. Both keep one socket for each value of `generation`, and
-- build socket and handlers anew whenever it is bumped. `H` is the type of the first frame.
pub mod Exec
pub mod Protocol
pub mod Pill
pub mod Keys
use control_room.Base.{
  ℕ, suc, String, Bool, true, false, not, ◌&&◌, List, [], ◌∷◌, ◌++◌, Option, none, some, ◌==◌, ◌is◌,
  if◌then◌else◌, or_default,
}

pub data Status : Type 0 where
  connecting opened closed error : Status

-- The state that the browser keeps of a socket; `absent` before there is one.
pub data Socket : Type 0 where
  absent pending live closing gone : Socket

pub data Frame (H : Type 0) : Type 0 where
  hello : H → Frame H
  resize : ℕ → ℕ → Frame H
  bytes : List ℕ → Frame H

pub record Shell (H : Type 0) : Type 0 where
  pub mounted : Bool
  pub generation : ℕ
  pub status : Status
  pub error : Option String
  pub socket : ℕ → Socket
  -- the first frame, as the effect of each generation holds it
  pub first : ℕ → H
  -- what was sent on each socket, oldest first
  pub sent : ℕ → List (Frame H)
  -- what was written to the terminal of each generation
  pub screen : ℕ → List (List ℕ)

-- A text frame, parsed: `type` and `err`.
pub record Notice : Type 0 where
  pub type : Option String
  pub err : Option String

-- The events of socket `g` carry its number. A notice is `none` where `JSON.parse` throws.
pub data Event (H : Type 0) : Type 0 where
  on_open on_close on_error : ℕ → Event H
  on_text : ℕ → Option Notice → Event H
  on_bytes : ℕ → List ℕ → Event H
  input : List ℕ → Event H
  on_resize : ℕ → ℕ → Event H
  rebuild : H → Event H
  press_reconnect : H → Event H
  unmount : Event H

abbrev pub update {ℓ} : {A : Type ℓ} → (ℕ → A) → ℕ → A → ℕ → A
update f i v j = if j == i then v else f j

-- `ws.close()`
abbrev pub close_socket : Socket → Socket
close_socket pending = closing
close_socket live = closing
close_socket s = s

abbrev pub is_live : Socket → Bool
is_live live = true
is_live _ = false

abbrev is_connecting : Status → Bool
is_connecting connecting = true
is_connecting _ = false

abbrev is_error_notice : Option String → Bool
is_error_notice none = false
is_error_notice (some t) = t is "error"

module _ {H : Type 0} where
  -- The first run of the effect.
  unfoldable pub mount : H → Shell H
  mount h = record {
    mounted = true;
    generation = 0;
    status = connecting;
    error = none;
    socket = update (λ _. absent) 0 pending;
    first = λ _. h;
    sent = λ _. [];
    screen = λ _. [];
  }

  -- `setGeneration`: the old effect is cleaned up, and a new one is run.
  unfoldable pub restart : H → Shell H → Shell H
  restart h s =
      let g = s.generation in
      record s {
        generation = suc g;
        status = connecting;
        error = none;
        socket = update (update s.socket g (close_socket (s.socket g))) (suc g) pending;
        first = update s.first (suc g) h;
      }

  abbrev append_frame : ℕ → Frame H → Shell H → ℕ → List (Frame H)
  append_frame g f s = update s.sent g (s.sent g ++ f ∷ [])

  after_open : Socket → ℕ → Shell H → Shell H
  after_open pending g s = record s {
    status = opened;
    socket = update s.socket g live;
    sent = append_frame g (hello (s.first g)) s;
  }
  after_open _ g s = s

  after_close : Socket → ℕ → Shell H → Shell H
  after_close absent g s = s
  after_close gone g s = s
  after_close _ g s = record s { status = closed; socket = update s.socket g gone }

  after_error : Socket → ℕ → Shell H → Shell H
  after_error absent g s = s
  after_error gone g s = s
  after_error _ g s = record s {
    status = error;
    error = some "connection error";
    socket = update s.socket g closing;
  }

  -- `setError(msg.err ?? fallback)` on a notice of type `error`.
  noticed : String → Option Notice → Shell H → Shell H
  noticed fallback none s = s
  noticed fallback (some n) s =
      if is_error_notice n.type then record s { error = some (or_default n.err fallback) } else s

  -- `ws.send` behind the test for an open socket.
  send_live : Frame H → Shell H → Shell H
  send_live f s =
      if s.mounted && is_live (s.socket s.generation)
      then record s { sent = append_frame s.generation f s }
      else s

  -- `fallback` is 'terminal error' or 'exec error'.
  unfoldable pub step : String → Event H → Shell H → Shell H
  unfolding after_open after_close after_error noticed send_live restart
  step fallback (on_open g) s = after_open (s.socket g) g s
  step fallback (on_close g) s = after_close (s.socket g) g s
  step fallback (on_error g) s = after_error (s.socket g) g s
  step fallback (on_text g n) s = if is_live (s.socket g) then noticed fallback n s else s
  step fallback (on_bytes g d) s =
      if is_live (s.socket g)
      then record s { screen = update s.screen g (s.screen g ++ d ∷ []) }
      else s
  step fallback (input d) s = send_live (bytes d) s
  step fallback (on_resize rows cols) s = send_live (resize rows cols) s
  step fallback (rebuild h) s = restart h s
  step fallback (press_reconnect h) s = if is_connecting s.status then s else restart h s
  step fallback unmount s = record s {
    mounted = false;
    socket = update s.socket s.generation (close_socket (s.socket s.generation));
  }

  unfoldable pub run : String → List (Event H) → Shell H → Shell H
  run fallback [] s = s
  run fallback (e ∷ es) s = run fallback es (step fallback e s)
