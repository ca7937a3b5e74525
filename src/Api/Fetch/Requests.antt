-- ===== src/Api/Fetch/Requests.antt =====
-- The requests that `rawFetch` of web/src/lib/api.ts builds and sends.
use control_room.Base.{
  String, true, [], ◌∷◌, ◌++◌, Option, some, ◌≡◌, refl, ◌⊎◌, inl, inr, arith, ◌is◌, if◌then◌else◌,
  or_default, eq_iff, Option-cases,
}
use control_room.Api.Csrf.{read_csrf_cookie}
use control_room.Api.Types.{Headers, get_header, set_header, FetchOpts, Request, uri_error, err}
use control_room.Api.Fetch.{
  Browser, World, needs_csrf, with_csrf, with_content_type, build_request, raw_fetch,
}

pub get_header-set_header :
    (k j v : String) (hs : Headers)
    → get_header j (set_header k v hs) ≡ (if k is j then some v else get_header j hs)
unfolding get_header set_header
get_header-set_header k j v [] = refl
get_header-set_header k j v ((i, w) ∷ hs) =
    ground (arith, eq_iff k j, eq_iff i k, eq_iff i j, get_header-set_header k j v hs)

module _ (b : Browser) (path : String) (opts : FetchOpts) where
  -- A request that is made for this call, with the token that the cookie holds in `w`.
  pub record IsFor (w : World b) (r : Request) : Type 0 where
    pub to_path : r.path ≡ path
    pub by_method : r.method ≡ b.to_upper (or_default opts.method "GET")
    pub with_body : r.body ≡ opts.body
    pub credentialed : r.credentials ≡ true
    pub guarded :
        needs_csrf r.method ≡ true
        → get_header "x-csrf-token" r.headers ≡ read_csrf_cookie b.decode (b.cookie w.net)

  with_csrf_token :
      (method : String) (hs hs' : Headers) (w : World b)
      → with_csrf b method hs w ≡ some hs'
      → needs_csrf method ≡ true
      → get_header "x-csrf-token" hs' ≡ read_csrf_cookie b.decode (b.cookie w.net)
  unfolding with_csrf
  with_csrf_token method hs hs' w e n =
      elim (Option-cases (read_csrf_cookie b.decode (b.cookie w.net))) [
        | inl missing ↦ ground arith
        | inr (token, found) ↦
            ground (arith, get_header-set_header "x-csrf-token" "x-csrf-token" token hs)
      ]

  get_header-with_content_type :
      (body : Option String) (hs : Headers)
      → get_header "x-csrf-token" (with_content_type body hs) ≡ get_header "x-csrf-token" hs
  unfolding with_content_type
  get_header-with_content_type body hs =
      ground (arith, get_header-set_header "content-type" "x-csrf-token" "application/json" hs)

  -- A request that is built is one for the call.
  pub build_request-IsFor :
      (w : World b) (r : Request) → build_request b path opts w ≡ some r → IsFor w r
  unfolding build_request
  build_request-IsFor w r e = elim (Option-cases (with_csrf b method accepted w)) [
    | inl missing ↦ ground arith
    | inr (hs, made) ↦ ground (
      arith,
      with_csrf_token method accepted hs w made,
      get_header-with_content_type opts.body hs,
    )
  ]
    where
      method : String
      method = b.to_upper (or_default opts.method "GET")

      accepted : Headers
      accepted = set_header "accept" "application/json" opts.headers

  pub raw_fetch_cases :
      (w : World b)
      → (raw_fetch b path opts w ≡ (err uri_error, w))
        ⊎ ((r : Request) × IsFor w r × ((raw_fetch b path opts w).1.sent ≡ w.sent ++ r ∷ []))
  unfolding raw_fetch
  raw_fetch_cases w = elim (Option-cases (build_request b path opts w)) [
    | inl refused ↦ inl (rw (refused, raw_fetch))
    | inr (r, built) ↦ inr (r, build_request-IsFor w r built, rw (built, raw_fetch))
  ]
