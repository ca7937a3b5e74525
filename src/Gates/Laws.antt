-- ===== src/Gates/Laws.antt =====
-- The redirects between the gates of web/src/routes/Gates.tsx.
use control_room.Base.{
  ℕ, zero, suc, true, false, not, none, some, if◌then◌else◌, is_some, ◌≡◌, refl, arith,
}
use control_room.Queries.Types.{MeUser}
use control_room.Gates.{
  Query, Session, Page, setup_page, login_page, app_page, children, is_required, auth_gate,
  setup_gate, login_gate, gate, follow, set_data, logged_in, setup_completed,
}

-- A query that is not loading has failed, or it has data, and not both.
pub record IsSettled {A : Type 0} (q : Query A) : Type 0 where
  pub loaded : q.is_loading ≡ false
  pub failed_or_has_data : is_some q.value ≡ not q.is_error

-- The page where a session belongs.
abbrev pub home : Session → Page
home s =
    if is_required s.setup then setup_page else if is_some s.me.value then app_page else login_page

-- Once the setup query is no longer loading and the session's query has either failed or has data, the
-- redirects end from every page after at most two, at a page that shows its content: the setup while
-- it is required, else the application for a session and the login without one.
pub gates_settle :
    (p : Page) (s : Session)
    → s.setup.is_loading ≡ false
    → IsSettled s.me
    → follow 2 p s ≡ some (home s, children)
unfolding follow gate auth_gate setup_gate login_gate
gates_settle p s h k = ground (arith, k.loaded, k.failed_or_has_data)

-- After a login succeeds, navigating home shows the application, and after the setup it does whatever
-- the queries were before.
pub login_lands :
    (u : MeUser) (s : Session)
    → s.setup.is_loading ≡ false
    → is_required s.setup ≡ false
    → (follow 2 app_page (logged_in u s) ≡ some (app_page, children))
      × ((t : Session) → follow 2 app_page (setup_completed u t) ≡ some (app_page, children))
unfolding follow gate auth_gate setup_gate login_gate logged_in setup_completed set_data
login_lands u s h k = (ground arith, λ t. refl)

-- A session whose query failed to refresh after it had loaded: it has both an error and data.
pub record IsStale (s : Session) : Type 0 where
  pub setup_done : is_required s.setup ≡ false
  pub setup_loaded : s.setup.is_loading ≡ false
  pub me_loaded : s.me.is_loading ≡ false
  pub me_failed : s.me.is_error ≡ true
  pub me_has_data : is_some s.me.value ≡ true

-- For such a session the application redirects to the login and the login to the application, and no
-- number of redirects ends at a page.
pub stale_session_loops :
    (n : ℕ) (s : Session)
    → IsStale s
    → (follow n app_page s ≡ none) × (follow n login_page s ≡ none)
unfolding follow gate auth_gate login_gate
stale_session_loops zero s h =
    ground (arith, h.setup_done, h.setup_loaded, h.me_loaded, h.me_failed, h.me_has_data)
stale_session_loops (suc n) s h = ground (
  arith,
  h.setup_done,
  h.setup_loaded,
  h.me_loaded,
  h.me_failed,
  h.me_has_data,
  stale_session_loops n s h,
)
