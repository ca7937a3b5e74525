-- ===== src/Api/Fetch.antt =====
-- web/src/lib/api.ts: `rawFetch`, `tryRefresh` and `apiFetch`, for one call at a time. What the
-- browser does is a parameter; the server and the cookie jar are a state that `fetch` changes.
pub mod Laws
pub mod Requests
pub mod Results
use control_room.Base.{
  ℕ, String, Bool, true, false, not, ◌&&◌, ◌||◌, List, [], ◌∷◌, ◌++◌, Option, none, some, ◌==◌,
  ◌is◌, ◌<>◌, if◌then◌else◌, or_default, is_some, after_prefix,
}
use control_room.Api.Csrf.{read_csrf_cookie}
use control_room.Api.Types.{
  Json, null, bool, num, str, arr, obj, Fields, end, field, get_key, coalesce, Headers, get_header,
  set_header, FetchOpts, Request, Response, is_ok, ApiError, Thrown, api_error, network_error,
  uri_error, Result, ok, err,
}

-- The browser. `fetch` gives `none` where its promise is rejected.
pub record Browser : Type 1 where
  pub Net : Type 0
  pub cookie : Net → String
  pub fetch : Request → Net → Option Response × Net
  pub decode : String → Option String
  pub parse : String → Option Json
  pub to_upper : String → String

abbrev pub needs_csrf : String → Bool
needs_csrf m = m is "POST" || m is "PUT" || m is "PATCH" || m is "DELETE"

abbrev pub no_opts : FetchOpts
no_opts = record { method = none; headers = []; body = none; skip_refresh = false }

abbrev pub refresh_path : String
refresh_path = "/api/auth/refresh"

-- `opts.body && …`: an empty text is falsy.
abbrev pub has_body : Option String → Bool
has_body none = false
has_body (some b) = not (b is "")

abbrev pub has_prefix : String → String → Bool
has_prefix s t = is_some (after_prefix t s)

-- The body of an answer: `undefined` if it is empty, an error object if it does not parse.
unfoldable pub read_body : (String → Option Json) → String → Option Json
read_body parse text =
    if text is ""
    then none
    else some (
        or_default (parse text) (
          obj (
            field "error" (obj (field "code" (str "parse_error") (field "message" (str text) end)))
              end)))

-- The error that an answer outside 200..299 is thrown as.
unfoldable pub error_of : Response → Option Json → ApiError
error_of res body =
    let e = get_key "error" body in
    record {
      status = res.status;
      code = coalesce (get_key "code" e) (str "unknown");
      message = coalesce (get_key "message" e) (str res.status_text);
      detail = get_key "detail" e;
    }

-- From the answer to what `rawFetch` returns or throws.
unfoldable pub settle : (String → Option Json) → Option Response → Result (Option Json)
unfolding read_body error_of
settle parse none = err network_error
settle parse (some res) = elim res.text [
  | none ↦ err network_error
  | some text ↦
      let body = read_body parse text in
      if is_ok res then ok body else err (api_error (error_of res body))
]

unfoldable pub with_content_type : Option String → Headers → Headers
with_content_type body hs =
    if has_body body && not (is_some (get_header "content-type" hs))
    then set_header "content-type" "application/json" hs
    else hs

unfoldable pub refresh_request : String → Request
refresh_request token = record {
  path = refresh_path;
  method = "POST";
  headers = ("x-csrf-token", token) ∷ ("accept", "application/json") ∷ [];
  body = none;
  credentials = true;
}

abbrev pub is_ok_answer : Option Response → Bool
is_ok_answer none = false
is_ok_answer (some r) = is_ok r

abbrev pub is_unauthorized : Thrown → Bool
is_unauthorized (api_error e) = e.status == 401
is_unauthorized _ = false

-- The condition of the `catch` in `apiFetch`.
unfoldable pub may_refresh : String → FetchOpts → Thrown → Bool
may_refresh path opts e =
    is_unauthorized e
    && not opts.skip_refresh
    && not (has_prefix path "/api/auth/refresh")
    && not (has_prefix path "/api/auth/login")
    && not (has_prefix path "/api/setup")

module _ (b : Browser) where
  open b use {Net, cookie, fetch, decode, parse, to_upper}

  -- The network, and what was sent through it so far, oldest first.
  pub record World : Type 0 where
    pub net : Net
    pub sent : List Request

  unfoldable pub send : Request → World → Option Response × World
  send r w = let (a, n) = fetch r w.net in (a, record { net = n; sent = w.sent ++ r ∷ [] })

  -- The headers of a request, or `none` where the CSRF cookie does not decode.
  unfoldable pub with_csrf : String → Headers → World → Option Headers
  with_csrf method hs w = elim (needs_csrf method) [
    | false ↦ some hs
    | true ↦ elim (read_csrf_cookie decode (cookie w.net)) [
      | none ↦ none
      | some token ↦ some (set_header "x-csrf-token" token hs)
    ]
  ]

  unfoldable pub build_request : String → FetchOpts → World → Option Request
  unfolding with_csrf with_content_type
  build_request path opts w =
      let method = to_upper (or_default opts.method "GET") in
      let accepted = set_header "accept" "application/json" opts.headers in
      elim (with_csrf method accepted w) [
        | none ↦ none
        | some hs ↦ some (record {
          path = path;
          method = method;
          headers = with_content_type opts.body hs;
          body = opts.body;
          credentials = true;
        })
      ]

  unfoldable pub raw_fetch : String → FetchOpts → World → Result (Option Json) × World
  unfolding build_request send settle
  raw_fetch path opts w = elim (build_request path opts w) [
    | none ↦ (err uri_error, w)
    | some r ↦ let (answer, w') = send r w in (settle parse answer, w')
  ]

  -- `tryRefresh` where no refresh is in flight: every exception is a `false`.
  unfoldable pub try_refresh : World → Bool × World
  unfolding refresh_request send
  try_refresh w = elim (read_csrf_cookie decode (cookie w.net)) [
    | none ↦ (false, w)
    | some token ↦ let (answer, w') = send (refresh_request token) w in (is_ok_answer answer, w')
  ]

  -- The `catch` of `apiFetch`.
  unfoldable pub recover :
      String → FetchOpts → Result (Option Json) → World → Result (Option Json) × World
  unfolding may_refresh try_refresh raw_fetch
  recover path opts (ok body) w = (ok body, w)
  recover path opts (err e) w = elim (may_refresh path opts e) [
    | false ↦ (err e, w)
    | true ↦
        let (refreshed, w') = try_refresh w in
        elim refreshed [
          | true ↦ raw_fetch path (record opts { skip_refresh = true }) w'
          | false ↦ (err e, w')
        ]
  ]

  unfoldable pub api_fetch : String → FetchOpts → World → Result (Option Json) × World
  unfolding recover raw_fetch
  api_fetch path opts w = let (r, w') = raw_fetch path opts w in recover path opts r w'
