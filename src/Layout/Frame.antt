-- ===== src/Layout/Frame.antt =====
-- The rest of web/src/components/AppLayout.tsx: the drawer of the navigation, the log-out button of its
-- footer, and the top bar, over the session that the gates of web/src/routes/Gates.tsx read.
pub mod Leaving
use control_room.Base.{
  ℕ, zero, suc, ◌-◌, String, Bool, true, false, Option, none, some, ◌is◌, if◌then◌else◌, or_default,
  is_some, ltb, List, [], ◌∷◌,
}
use control_room.Queries.Types.{MeUser}
use control_room.Gates.{Query, Session, Page, login_page, set_data, logged_out}

-- `page` is where the gates are entered, `path` the entry of the navigation inside the application, and
-- `leaving` how many log-outs have no answer yet. `session` is what the gates show. Once the cache of the
-- queries was cleared under them, they show what they had until they are rendered again; what they will
-- read then is `cached`, which is none while they show what the cache has.
pub record Frame : Type 0 where
  pub drawer_open : Bool
  pub path : String
  pub page : Page
  pub session : Session
  pub cached : Option Session
  pub leaving : ℕ

-- `go` is a click on an entry of the navigation. `left` is how a log-out settles: answered, or thrown.
-- `rendered` is a rendering of the gates, which may come at any time. `me_answered` and `setup_answered`
-- are what the queries load; the footer reads the user anew while the gates are not rendered.
pub data Event : Type 0 where
  open_drawer close_drawer press_logout rendered : Event
  go : String → Event
  left : Bool → Event
  me_answered : Option MeUser → Event
  setup_answered : Bool → Event

abbrev pub failed : {A : Type 0} → Query A
failed = record { is_loading = false; is_error = true; value = none }

-- What `/api/auth/me` answers, or `none` where it fails.
unfoldable pub me_query : Option MeUser → Query MeUser
unfolding set_data
me_query none = failed
me_query (some u) = set_data u

-- `onSettled` of `useLogout`: the cache is cleared, whether the request was answered or has failed.
unfoldable pub clear : Frame → Frame
unfolding logged_out
clear s = record s { leaving = s.leaving - 1; cached = some (logged_out s.session) }

unfoldable pub render : Frame → Frame
render s = record s { session = or_default s.cached s.session; cached = none }

-- A query that is loaded is read by the gates, or waits in the cache for them.
unfoldable pub on_me : Option MeUser → Frame → Frame
unfolding me_query
on_me u s = elim s.cached [
  | none ↦ record s { session = record s.session { me = me_query u } }
  | some c ↦ record s { cached = some (record c { me = me_query u }) }
]

-- The gates alone read the status of the setup, so it is loaded while they show the cache.
unfoldable pub on_setup : Bool → Frame → Frame
unfolding set_data
on_setup required s = elim s.cached [
  | none ↦ record s { session = record s.session { setup = set_data required } }
  | some c ↦ s
]

-- The log-out button navigates to the login only behind an answer, where the gates are rendered anew.
unfoldable pub step : Event → Frame → Frame
unfolding clear render on_me on_setup
step open_drawer s = record s { drawer_open = true }
step close_drawer s = record s { drawer_open = false }
step (go to) s = record s { drawer_open = false; path = to }
step press_logout s = record s { leaving = suc s.leaving }
step rendered s = render s
step (left answered) s =
    if ltb zero s.leaving
    then if answered then render (record (clear s) { page = login_page }) else clear s
    else s
step (me_answered u) s = on_me u s
step (setup_answered required) s = on_setup required s

unfoldable pub run : List Event → Frame → Frame
run [] s = s
run (e ∷ es) s = run es (step e s)

pub data Pill : Type 0 where
  ok pending error : Pill

-- `overview.isError ? 'error' : overview.data ? 'ok' : 'pending'`
unfoldable pub pill : {A : Type 0} → Query A → Pill
pill q = if q.is_error then error else if is_some q.value then ok else pending

abbrev pub pill_label : Pill → String
pill_label ok = "Live"
pill_label pending = "Connecting"
pill_label error = "Offline"
