-- ===== src/Api/Fetch/Results.antt =====
-- What a call of the client resolves with, against the answers of the server.
use control_room.Base.{
  String, true, false, Option, none, some, ◌≡◌, ◌≢◌, refl, ◌⊎◌, inl, inr, arith, eq_iff, Bool-cases,
}
use control_room.Api.Types.{
  Json, str, obj, field, end, FetchOpts, Response, is_ok, Thrown, ApiError, api_error, Result, ok,
  err,
}
use control_room.Api.Fetch.{
  Browser, World, has_prefix, raw_fetch, may_refresh, recover, api_fetch, settle, read_body,
  error_of,
}

-- An answer is returned exactly if its text can be read and its status lies in 200..299; any other
-- answer that can be read is thrown as an `ApiError` with the answer's status.
pub settle_by_status :
    (parse : String → Option Json) (res : Response) (text : String)
    → res.text ≡ some text
    → ((is_ok res ≡ true) × (settle parse (some res) ≡ ok (read_body parse text)))
      ⊎ ((is_ok res ≡ false)
          × ((e : ApiError) × (settle parse (some res) ≡ err (api_error e))
              × (e.status ≡ res.status)))
unfolding settle error_of
settle_by_status parse res text h = elim (Bool-cases (is_ok res)) [
  | inl fine ↦ inl (fine, ground arith)
  | inr bad ↦ inr (bad, (error_of res (read_body parse text), ground arith, refl))
]

-- An answer with a status in 200..299 whose text is not JSON is no error: the call resolves with an
-- object that has the form of the server's error bodies.
pub settle_unparsed :
    (parse : String → Option Json) (res : Response) (text : String)
    → res.text ≡ some text
    → is_ok res ≡ true
    → text ≢ ""
    → parse text ≡ none
    → settle parse (some res)
      ≡ ok (
          some (
            obj (
              field "error"
                (obj (field "code" (str "parse_error") (field "message" (str text) end)))
                end)))
unfolding settle
settle_unparsed parse res text h fine filled bad = ground (arith, eq_iff text "")

module _ (b : Browser) (path : String) (opts : FetchOpts) (w : World b) where
  -- The bare request was answered by a 401, and the call is not one of those that never refresh.
  pub record HasExpired : Type 0 where
    pub error : ApiError
    pub thrown : (raw_fetch b path opts w).0 ≡ err (api_error error)
    pub unauthorized : error.status ≡ 401
    pub refreshes : opts.skip_refresh ≡ false
    pub not_refresh : has_prefix path "/api/auth/refresh" ≡ false
    pub not_login : has_prefix path "/api/auth/login" ≡ false
    pub not_setup : has_prefix path "/api/setup" ≡ false

  may_refresh_needs :
      (e : Thrown)
      → (raw_fetch b path opts w).0 ≡ err e
      → may_refresh path opts e ≡ true
      → HasExpired
  unfolding may_refresh
  may_refresh_needs (api_error e) thrown may = record {
    error = e;
    thrown = thrown;
    unauthorized = ground arith;
    refreshes = ground arith;
    not_refresh = ground arith;
    not_login = ground arith;
    not_setup = ground arith;
  }
  may_refresh_needs _ thrown may = cc

  recover_cases :
      (r : Result (Option Json)) (w' : World b)
      → (raw_fetch b path opts w).0 ≡ r
      → (recover b path opts r w' ≡ (r, w')) ⊎ HasExpired
  unfolding recover
  recover_cases (ok body) w' e = inl refl
  recover_cases (err thrown) w' e = elim (Bool-cases (may_refresh path opts thrown)) [
    | inl may ↦ inr (may_refresh_needs thrown e may)
    | inr not_so ↦ inl (rw (not_so, recover))
  ]

  -- A call behaves as the bare request does, in what it resolves with and in what it sends, unless
  -- that request is answered by a 401, the caller does not skip the refresh, and the path is none of
  -- the refresh, the login and the setup paths.
  pub api_fetch-eq-raw_fetch : (api_fetch b path opts w ≡ raw_fetch b path opts w) ⊎ HasExpired
  unfolding api_fetch
  api_fetch-eq-raw_fetch =
      recover_cases (raw_fetch b path opts w).0 (raw_fetch b path opts w).1 refl
