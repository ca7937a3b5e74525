-- ===== src/Examples/Terminals.antt =====
-- Concrete runs of the terminals.
use control_room.Base.{ℕ, List, [], ◌∷◌, ◌≡◌, refl}
use control_room.Shell
use control_room.Shell.{mount, on_open, on_close, input, press_reconnect, live, closed, step, run}
use control_room.Shell.Pill.{late_close_misleads}
use control_room.Shell.Protocol.{OpensWith, greeting_comes_first}

-- The first frame as rows and columns.
abbrev size : ℕ × ℕ
size = (24, 80)

abbrev session : List (Shell.Event (ℕ × ℕ))
session = on_open 0 ∷ input (108 ∷ []) ∷ press_reconnect size ∷ []

late_close_misleads_example :
    let s = step "terminal error" (on_open 0) (mount size) in
    let t = run "terminal error" (press_reconnect size ∷ on_open 1 ∷ on_close 0 ∷ []) s in
    (t.status ≡ closed) × (t.socket t.generation ≡ live)
unfolding step mount
late_close_misleads_example =
    late_close_misleads "terminal error" (step "terminal error" (on_open 0) (mount size)) size refl
      refl

greeting_comes_first_example :
    let s = run "terminal error" session (mount size) in OpensWith (s.first 0) (s.sent 0)
greeting_comes_first_example = greeting_comes_first "terminal error" size session 0
