-- ===== src/Setup/Finish.antt =====
-- The end of the setup: the last step of web/src/routes/Setup.tsx inside its gate of
-- web/src/routes/Gates.tsx, with the redirect after 800 ms, and the stepper above the forms.
pub mod Redirect
use control_room.Base.{
  ℕ, zero, suc, ltb, ◌==◌, String, Bool, true, false, List, [], ◌∷◌, map, if◌then◌else◌,
}
use control_room.Queries.Types.{MeUser}
use control_room.Gates.{Session, Page, setup_page, app_page, setup_completed}
use control_room.Setup
use control_room.Setup.{Step, token, account, totp, done, Wizard, completed, handle}

-- The browser's tab: `page` is the route, `path` the page inside the application, and `timer` whether
-- `setTimeout` has still to call `navigate('/')`.
pub record Tab : Type 0 where
  pub wizard : Wizard
  pub session : Session
  pub page : Page
  pub path : String
  pub timer : Bool

-- `finished` is the answer to a completion; `enter` the redirect of the gate; `go` a click on an entry of
-- the application's navigation; `fire` the end of the 800 ms.
pub data Event : Type 0 where
  finished : MeUser → Event
  enter fire : Event
  go : String → Event

unfoldable pub step : Event → Tab → Tab
unfolding handle setup_completed
step (finished u) t =
    if ltb zero t.wizard.completions
    then record t {
      wizard = handle completed t.wizard;
      session = setup_completed u t.session;
      timer = true;
    }
    else t
step enter t = record t { page = app_page; path = "/" }
step (go to) t = record t { path = to }
step fire t = if t.timer then record t { page = app_page; path = "/"; timer = false } else t

unfoldable pub run : List Event → Tab → Tab
run [] t = t
run (e ∷ es) t = run es (step e t)

-- How the stepper marks a step: `i === idx`, `i < idx`, or neither.
pub data Mark : Type 0 where
  active passed ahead : Mark

-- `order.indexOf(step)`
unfoldable pub index_of : Step → ℕ
index_of token = 0
index_of account = 1
index_of totp = 2
index_of done = 3

unfoldable pub mark_at : ℕ → ℕ → Mark
mark_at i idx = if i == idx then active else if ltb i idx then passed else ahead

unfoldable pub marks : Step → List Mark
unfolding mark_at index_of
marks s = map (λ i. mark_at i (index_of s)) (0 ∷ 1 ∷ 2 ∷ [])
