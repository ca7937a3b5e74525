-- ===== src/Api/Shared/Solo.antt =====
-- A call of web/src/lib/api.ts that runs alone.
use control_room.Base.{ℕ, String, List, [], ◌∷◌, Option, none, some, ◌≡◌, refl, arith}
use control_room.Api.Types.{Json, FetchOpts, Request, Result}
use control_room.Api.Fetch.{Browser, World, send, build_request, settle, recover, api_fetch}
use control_room.Api.Shared.Refinement.{run-unborn}
use control_room.Api.Shared.{idle, finished, State, Event, call, with_net, init, step, run}
use control_room.Api.Shared.Equations.{requests, answer_to, raw_of, Sends, send-Sends}
use control_room.Api.Shared.Steps.{rest, after_first}

module _ (b : Browser) (path : String) (opts : FetchOpts) (i : ℕ) where
  -- All that happens around the call in the world `w`.
  abbrev pub solo : World b → List (Event b)
  solo w =
      let (a, w') = answer_to b (build_request b path opts (with_net b w.net)) w in
      call i path opts w.net ∷ rest b path opts i a w'

  raw_then : Option Request → World b → Result (Option Json) × World b
  raw_then o w = let (r, w') = raw_of b o w in recover b path opts r w'

  api_fetch-raw_then :
      (w : World b)
      → api_fetch b path opts w ≡ raw_then (build_request b path opts (with_net b w.net)) w
  unfolding api_fetch raw_then raw_of
  api_fetch-raw_then w = refl

  from_call :
      (base : List Request) (o : Option Request) (w : World b) (s : State)
      → build_request b path opts (with_net b w.net) ≡ o
      → s.stage i ≡ idle
      → s.slot ≡ none
      → s.outcome s.started ≡ none
      → Sends b base w s
      → let (a, w') = answer_to b o w in
        let t = run b (call i path opts w.net ∷ rest b path opts i a w') s in
        (t.stage i ≡ finished (raw_then o w).0) × Sends b base (raw_then o w).1 t
  unfolding raw_then raw_of
  from_call base none w s m g l u h =
      unfold run in
      unfold step in unfold recover in (ground (arith, g, l, m), ground (arith, g, l, m, h))
  from_call base (some r) w s m g l u h =
      let (a, w') = send b r w in
      let t = step b (call i path opts w.net) s in
      unfold run in
      after_first b path opts i base (settle b.parse a) a w' t refl
        (unfold step in ground (arith, g, m)) (unfold step in ground (arith, g, l, m))
        (unfold step in ground (arith, g, u, m))
        (send-Sends b base r (some i) w s t (unfold step in ground (arith, g, m)) h)

  -- Take any events, and a world in which the requests sent so far are those of these events. A call that
  -- then runs without the others in between, while no refresh is in flight, ends with what `apiFetch`
  -- returns or throws in that world, and all that is sent then are the requests that `apiFetch` sends in it.
  pub alone-eq-api_fetch :
      (es : List (Event b)) (w : World b)
      → (run b es init).stage i ≡ idle
      → (run b es init).slot ≡ none
      → w.sent ≡ requests (run b es init).sent
      → let t = run b (solo w) (run b es init) in
        (t.stage i ≡ finished (api_fetch b path opts w).0)
        × ((api_fetch b path opts w).1.sent ≡ requests t.sent)
  alone-eq-api_fetch es w g l h = rw (api_fetch-raw_then w) (
      from_call [] (build_request b path opts (with_net b w.net)) w (run b es init) refl g l
        (run-unborn b es) h)
