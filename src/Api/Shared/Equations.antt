-- ===== src/Api/Shared/Equations.antt =====
-- The functions of web/src/lib/api.ts for one call, from the requests that they make on, and the requests
-- that a world and the calls of a state have sent.
use control_room.Base.{
  ℕ, String, Bool, true, false, List, [], ◌∷◌, ◌++◌, Option, none, some, ◌≡◌, refl, append_assoc,
  ◌∙◌, ap, sym,
}
use control_room.Api.Csrf.{read_csrf_cookie}
use control_room.Api.Types.{Json, FetchOpts, Request, Response, Thrown, uri_error, Result, ok, err}
use control_room.Api.Fetch.{
  Browser, World, send, build_request, settle, may_refresh, refresh_request, is_ok_answer,
  raw_fetch, recover,
}
use control_room.Api.Shared.{Sent, State, with_net}

-- The requests that were sent, the first one first.
abbrev pub requests : List Sent → List Request
requests [] = []
requests (x ∷ xs) = requests xs ++ x.request ∷ []

-- `{ ...opts, skipRefresh: true }`
abbrev pub again : FetchOpts → FetchOpts
again opts = record opts { skip_refresh = true }

module _ (b : Browser) where
  -- What `fetch` answers to a request, where it could be made.
  abbrev pub answer_to : Option Request → World b → Option Response × World b
  answer_to none w = (none, w)
  answer_to (some r) w = send b r w

  -- `rawFetch` from the request that it makes, or fails to make.
  unfoldable pub raw_of : Option Request → World b → Result (Option Json) × World b
  raw_of o w = elim o [
    | none ↦ (err uri_error, w)
    | some r ↦ let (a, w') = send b r w in (settle b.parse a, w')
  ]

  -- `tryRefresh` from the token that it reads, or fails to read.
  unfoldable pub refresh_of : Option String → World b → Bool × World b
  refresh_of o w = elim o [
    | none ↦ (false, w)
    | some token ↦ let (a, w') = send b (refresh_request token) w in (is_ok_answer a, w')
  ]

  -- What was sent since `base` is what the calls have sent.
  abbrev pub Sends : List Request → World b → State → Type 0
  Sends base w s = w.sent ≡ base ++ requests s.sent

  pub send-Sends :
      (base : List Request) (r : Request) (k : Option ℕ) (w : World b) (s t : State)
      → t.sent ≡ record { by = k; request = r } ∷ s.sent
      → Sends base w s
      → Sends base (send b r w).1 t
  unfolding send
  send-Sends base r k w s t e h =
      ap (λ l. l ++ r ∷ []) h
      ∙ append_assoc base (requests s.sent) (r ∷ [])
      ∙ ap (λ l. base ++ requests l) (sym e)

  module _ (path : String) (opts : FetchOpts) where
    pub raw_fetch-raw_of :
        (o : FetchOpts) (w : World b)
        → raw_fetch b path o w ≡ raw_of (build_request b path o (with_net b w.net)) w
    unfolding raw_fetch raw_of
    raw_fetch-raw_of o w = refl

    pub recover-ok :
        (body : Option Json) (w : World b) → recover b path opts (ok body) w ≡ (ok body, w)
    unfolding recover
    recover-ok body w = refl

    -- `catch`, from the outcome of the refresh on.
    unfoldable pub retried : Thrown → Bool → World b → Result (Option Json) × World b
    retried e refreshed w = elim refreshed [
      | true ↦ raw_of (build_request b path (again opts) (with_net b w.net)) w
      | false ↦ (err e, w)
    ]

    pub recover-err :
        (e : Thrown) (w : World b)
        → recover b path opts (err e) w ≡ (elim (may_refresh path opts e) [
          | false ↦ (err e, w)
          | true ↦
              let (refreshed, w') = refresh_of (read_csrf_cookie b.decode (b.cookie w.net)) w in
              retried e refreshed w'
        ])
    unfolding recover retried raw_of refresh_of
    recover-err e w = refl
