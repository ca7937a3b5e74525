-- ===== src/Gates.antt =====
-- web/src/routes/Gates.tsx with the routes of web/src/App.tsx: which page the browser ends at, and how
-- the hooks of web/src/lib/auth.ts change what the gates read.
pub mod Laws
use control_room.Queries.Types.{MeUser}
use control_room.Base.{
  ℕ, zero, suc, String, Bool, true, false, not, ◌&&◌, Option, none, some, if◌then◌else◌, is_some,
}

-- A query of TanStack Query as the gates read it.
pub record Query (A : Type 0) : Type 0 where
  pub is_loading : Bool
  pub is_error : Bool
  pub value : Option A

-- `setup.data` is the status' `required`.
pub record Session : Type 0 where
  pub setup : Query Bool
  pub me : Query MeUser

-- The routes `/setup`, `/login` and `/*`.
pub data Page : Type 0 where
  setup_page login_page app_page : Page

-- What a gate renders.
pub data Outcome : Type 0 where
  splash children : Outcome
  navigate : Page → Outcome

-- `setup.data?.required`
abbrev pub is_required : Query Bool → Bool
is_required q = elim q.value [ none ↦ false | some b ↦ b ]

unfoldable pub auth_gate : Session → Outcome
auth_gate s =
    if s.setup.is_loading
    then splash
    else if is_required s.setup
    then navigate setup_page
    else if s.me.is_loading
    then splash
    else if s.me.is_error
    then navigate login_page
    else children

unfoldable pub setup_gate : Session → Outcome
setup_gate s =
    if s.setup.is_loading
    then splash
    else if not (is_required s.setup)
    then navigate app_page
    else children

unfoldable pub login_gate : Session → Outcome
login_gate s =
    if s.setup.is_loading
    then splash
    else if is_required s.setup
    then navigate setup_page
    else if s.me.is_loading
    then splash
    else if is_some s.me.value
    then navigate app_page
    else children

unfoldable pub gate : Page → Session → Outcome
gate setup_page s = setup_gate s
gate login_page s = login_gate s
gate app_page s = auth_gate s

-- Where the browser ends after at most `n` redirects: the page whose content or splash is shown, or
-- `none` when the last page redirects again.
unfoldable pub follow : ℕ → Page → Session → Option (Page × Outcome)
follow zero p s = elim (gate p s) [
  | splash ↦ some (p, splash)
  | children ↦ some (p, children)
  | navigate q ↦ none
]
follow (suc n) p s = elim (gate p s) [
  | splash ↦ some (p, splash)
  | children ↦ some (p, children)
  | navigate q ↦ follow n q s
]

-- `qc.setQueryData(key, data)`
unfoldable pub set_data : {A : Type 0} → A → Query A
set_data a = record { is_loading = false; is_error = false; value = some a }

-- `useLogin` on success
unfoldable pub logged_in : MeUser → Session → Session
logged_in u s = record s { me = set_data u }

-- `useSetupComplete` on success
unfoldable pub setup_completed : MeUser → Session → Session
setup_completed u s = record s { me = set_data u; setup = set_data false }

-- `useLogout` when it settles: a query that is read again is loaded anew.
unfoldable pub logged_out : Session → Session
logged_out s = record {
  setup = record { is_loading = true; is_error = false; value = none };
  me = record { is_loading = true; is_error = false; value = none };
}
