-- ===== src/Layout/Frame/Leaving.antt =====
-- Logging out by the button of web/src/components/AppLayout.tsx.
use control_room.Base.{
  ℕ, suc, Bool, true, false, [], ◌∷◌, Option, none, some, is_some, if◌then◌else◌, ◌≡◌, refl, sym,
  subst, ltb, arith,
}
use control_room.Queries.Types.{MeUser}
use control_room.Gates.{
  Session, Page, login_page, app_page, setup_page, splash, children, follow, gate, auth_gate,
  setup_gate, login_gate, set_data, logged_out,
}
use control_room.Layout.Frame.{
  Frame, left, rendered, me_answered, setup_answered, me_query, clear, render, on_me, on_setup,
  step, run,
}

-- The page from which the gates are entered anew when a log-out has settled.
abbrev pub entry : Bool → Frame → Page
entry answered s = if answered then login_page else s.page

-- The state behind a log-out that has settled.
settled : Bool → Frame → Frame
settled true s = render (record (clear s) { page = login_page })
settled false s = clear s

pending : (m n : ℕ) → m ≡ suc n → ltb 0 m ≡ true
pending m n h = ground (arith, h)

left-settled :
    (answered : Bool) (s : Frame) (n : ℕ)
    → s.leaving ≡ suc n
    → step (left answered) s ≡ settled answered s
unfolding step settled
left-settled true s n h = rw (pending s.leaving n h) refl
left-settled false s n h = rw (pending s.leaving n h) refl

splash_anywhere : (p : Page) (s : Session) → follow 2 p (logged_out s) ≡ some (p, splash)
unfolding follow gate login_gate auth_gate setup_gate logged_out
splash_anywhere setup_page s = refl
splash_anywhere login_page s = refl
splash_anywhere app_page s = refl

-- Where the gates end once both queries were answered.
abbrev place : Option MeUser → Page
place u = if is_some u then app_page else login_page

children_anywhere :
    (p : Page) (u : Option MeUser)
    → follow 2 p (record { setup = set_data false; me = me_query u }) ≡ some (place u, children)
unfolding follow gate login_gate auth_gate setup_gate set_data me_query
children_anywhere setup_page none = refl
children_anywhere setup_page (some u) = refl
children_anywhere login_page none = refl
children_anywhere login_page (some u) = refl
children_anywhere app_page none = refl
children_anywhere app_page (some u) = refl

-- What is claimed of the state behind the log-out.
Lands : Page → Option MeUser → Frame → Type 0
Lands p u t =
    let shown = step rendered t in
    let done = run (setup_answered false ∷ me_answered u ∷ []) shown in
    let early = run (me_answered u ∷ rendered ∷ setup_answered false ∷ []) t in
    (follow 2 shown.page shown.session ≡ some (p, splash))
    × (follow 2 done.page done.session ≡ some (place u, children))
    × (follow 2 early.page early.session ≡ some (place u, children))

settled-Lands :
    (answered : Bool) (u : Option MeUser) (s : Frame)
    → Lands (entry answered s) u (settled answered s)
unfolding Lands settled run step clear render on_me on_setup logged_out
settled-Lands true u s = (
  splash_anywhere login_page s.session,
  children_anywhere login_page u,
  children_anywhere login_page u,
)
settled-Lands false u s =
    (splash_anywhere s.page s.session, children_anywhere s.page u, children_anywhere s.page u)

-- A log-out that settles empties the cache of the queries, whether it was answered or has failed. When
-- the gates are rendered next, they show the splash, on the login page behind an answer and on the same
-- page behind a failure. Once the two queries are answered, the setup as not required, also where the
-- user is read before that rendering, the gates end at the login where the server refuses the session, and at the application
-- where it still accepts it: from the login behind an answer, and from any page behind a failure.
pub logout_lands :
    (answered : Bool) (u : Option MeUser) (s : Frame) (n : ℕ)
    → s.leaving ≡ suc n
    → let t = run (left answered ∷ rendered ∷ []) s in
      let done = run (setup_answered false ∷ me_answered u ∷ []) t in
      let early = run (left answered ∷ me_answered u ∷ rendered ∷ setup_answered false ∷ []) s in
      let target = if is_some u then app_page else login_page in
      (follow 2 t.page t.session ≡ some (entry answered s, splash))
      × (follow 2 done.page done.session ≡ some (target, children))
      × (follow 2 early.page early.session ≡ some (target, children))
unfolding run Lands
logout_lands answered u s n h =
    subst (Lands (entry answered s) u) (sym (left-settled answered s n h))
      (settled-Lands answered u s)
