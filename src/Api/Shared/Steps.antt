-- ===== src/Api/Shared/Steps.antt =====
-- A call of web/src/lib/api.ts after its first request, while no other call goes on.
use control_room.Base.{
  ℕ, String, Bool, true, false, List, [], ◌∷◌, Option, none, some, ◌≡◌, refl, arith, Bool-cases,
  inl, inr,
}
use mathlib.Core.Option
use control_room.Api.Csrf.{read_csrf_cookie}
use control_room.Api.Types.{Json, FetchOpts, Request, Response, Thrown, Result, ok, err}
use control_room.Api.Fetch.{
  Browser, World, send, build_request, settle, may_refresh, refresh_request, recover,
}
use control_room.Api.Shared.{
  first, waiting, finished, State, Event, answer, refresh_answer, resume, second_answer, clear,
  with_net, step, run,
}
use control_room.Api.Shared.Equations.{
  answer_to, raw_of, refresh_of, Sends, send-Sends, again, recover-ok, recover-err, retried,
}

module _ (b : Browser) (path : String) (opts : FetchOpts) (i : ℕ) where
  -- The world after the refresh that a call starts in `w`, and what is answered to the call's
  -- repetition in it.
  abbrev pub refreshing : World b → Option Response × World b
  refreshing w =
      answer_to b (Option.map refresh_request (read_csrf_cookie b.decode (b.cookie w.net))) w

  abbrev pub repeated : World b → Option Response
  repeated w = (answer_to b (build_request b path (again opts) (with_net b w.net)) w).0

  abbrev pub rest : Option Response → World b → List (Event b)
  rest a w =
      let (refreshed, w') = refreshing w in
      answer i a w.net
      ∷ refresh_answer refreshed
      ∷ clear
      ∷ resume i w'.net
      ∷ second_answer i (repeated w')
      ∷ []

  -- From the outcome of the refresh on.
  last_request :
      (base : List Request) (o : Option Request) (w : World b) (e : Thrown) (k : ℕ) (s : State)
      → build_request b path (again opts) (with_net b w.net) ≡ o
      → s.stage i ≡ waiting path opts e k
      → s.outcome k ≡ some true
      → Sends b base w s
      → let t = run b (resume i w.net ∷ second_answer i (answer_to b o w).0 ∷ []) s in
        (t.stage i ≡ finished (raw_of b o w).0) × Sends b base (raw_of b o w).1 t
  unfolding run step raw_of
  last_request base none w e k s m g y h = (ground (arith, m, g, y), ground (arith, m, g, y, h))
  last_request base (some r) w e k s m g y h =
      let t = run b (resume i w.net ∷ second_answer i (send b r w).0 ∷ []) s in
      (ground (arith, m, g, y), send-Sends b base r (some i) w s t (ground (arith, m, g, y)) h)

  -- From the error of the first request to the outcome of the refresh.
  refresh_between :
      (base : List Request) (o : Option String) (a : Option Response) (w : World b) (e : Thrown)
      (s : State)
      → read_csrf_cookie b.decode (b.cookie w.net) ≡ o
      → settle b.parse a ≡ err e
      → may_refresh path opts e ≡ true
      → s.stage i ≡ first path opts
      → s.slot ≡ none
      → s.outcome s.started ≡ none
      → Sends b base w s
      → let refreshed = (answer_to b (Option.map refresh_request o) w).0 in
        let t = run b (answer i a w.net ∷ refresh_answer refreshed ∷ clear ∷ []) s in
        (t.stage i ≡ waiting path opts e s.started)
        × (t.outcome s.started ≡ some (refresh_of b o w).0)
        × Sends b base (refresh_of b o w).1 t
  unfolding run step refresh_of
  refresh_between base none a w e s m f y g l u h = (
    ground (arith, m, f, y, g, l, u),
    ground (arith, m, f, y, g, l, u),
    ground (arith, m, f, y, g, l, u, h),
  )
  refresh_between base (some token) a w e s m f y g l u h =
      let refreshed = (send b (refresh_request token) w).0 in
      let t = run b (answer i a w.net ∷ refresh_answer refreshed ∷ clear ∷ []) s in
      (
        ground (arith, m, f, y, g, l, u),
        ground (arith, m, f, y, g, l, u),
        send-Sends b base (refresh_request token) none w s t (ground (arith, m, f, y, g, l, u)) h,
      )

  refreshing-refresh_of :
      (o : Option String) (w : World b)
      → (answer_to b (Option.map refresh_request o) w).1 ≡ (refresh_of b o w).1
  unfolding refresh_of
  refreshing-refresh_of none w = refl
  refreshing-refresh_of (some token) w = refl

  last_steps :
      (base : List Request) (refreshed : Bool) (w : World b) (e : Thrown) (k : ℕ) (s : State)
      → s.stage i ≡ waiting path opts e k
      → s.outcome k ≡ some refreshed
      → Sends b base w s
      → let t = run b (resume i w.net ∷ second_answer i (repeated w) ∷ []) s in
        (t.stage i ≡ finished (retried b path opts e refreshed w).0)
        × Sends b base (retried b path opts e refreshed w).1 t
  unfolding retried
  last_steps base true w e k s g y h =
      last_request base (build_request b path (again opts) (with_net b w.net)) w e k s refl g y h
  last_steps base false w e k s g y h =
      unfold run in unfold step in (ground (arith, g, y), ground (arith, g, y, h))

  pub after_first :
      (base : List Request) (r : Result (Option Json)) (a : Option Response) (w : World b)
      (s : State)
      → settle b.parse a ≡ r
      → s.stage i ≡ first path opts
      → s.slot ≡ none
      → s.outcome s.started ≡ none
      → Sends b base w s
      → let t = run b (rest a w) s in
        (t.stage i ≡ finished (recover b path opts r w).0)
        × Sends b base (recover b path opts r w).1 t
  after_first base (ok body) a w s f g l u h =
      rw (recover-ok b path opts body w)
        (unfold run in unfold step in (ground (arith, f, g, l), ground (arith, f, g, l, h)))
  after_first base (err e) a w s f g l u h = elim (Bool-cases (may_refresh path opts e)) [
    | inr m ↦ rw (recover-err b path opts e w) (
        rw m (
          unfold run in unfold step in (ground (arith, f, g, l, m), ground (arith, f, g, l, m, h))))
    | inl m ↦
        let o = read_csrf_cookie b.decode (b.cookie w.net) in
        let mid = refresh_between base o a w e s refl f m g l u h in
        rw (recover-err b path opts e w) (
          rw m (
            rw (refreshing-refresh_of o w) (
              unfold run in
              last_steps base (refresh_of b o w).0 (refresh_of b o w).1 e s.started _ mid.0 mid.1
                mid.2)))
  ]
