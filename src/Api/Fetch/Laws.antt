-- ===== src/Api/Fetch/Laws.antt =====
-- What one call of `apiFetch` in web/src/lib/api.ts sends.
use control_room.Base.{
  String, true, false, List, [], ◌∷◌, ◌++◌, Option, some, ◌≡◌, refl, sym, subst, ap, ◌∙◌, ◌⊎◌, inl,
  inr, Bool-cases, Option-cases, append_assoc, append-nil,
}
use control_room.Api.Csrf.{read_csrf_cookie}
use control_room.Api.Types.{Json, FetchOpts, Request, Thrown, Result, ok, err}
use control_room.Api.Fetch.{
  Browser, World, raw_fetch, refresh_request, try_refresh, may_refresh, recover, api_fetch,
}
use control_room.Api.Fetch.Requests.{IsFor, raw_fetch_cases}

module _ (b : Browser) (path : String) (opts : FetchOpts) where
  -- The token that the cookie holds once the bare request was answered.
  pub HoldsToken : World b → String → Type 0
  HoldsToken w token =
      read_csrf_cookie b.decode (b.cookie (raw_fetch b path opts w).1.net) ≡ some token

  -- The requests that one call of `apiFetch` sends from the world `w`: none, one for the call, that
  -- one and a refresh with the token that the cookie then holds, or these two and the call once more,
  -- made in the world that the refresh leaves.
  pub data Exchange (w : World b) (ks : List Request) : Type 0 where
    silent : ks ≡ [] → Exchange w ks
    once : (r : Request) → IsFor b path opts w r → ks ≡ r ∷ [] → Exchange w ks
    refreshed :
        (r : Request) (token : String)
        → IsFor b path opts w r
        → HoldsToken w token
        → ks ≡ r ∷ refresh_request token ∷ []
        → Exchange w ks
    retried :
        (r r' : Request) (token : String)
        → IsFor b path opts w r
        → HoldsToken w token
        → IsFor b path opts (try_refresh b (raw_fetch b path opts w).1).1 r'
        → ks ≡ r ∷ refresh_request token ∷ r' ∷ []
        → Exchange w ks

  try_refresh_cases :
      (w : World b)
      → (try_refresh b w ≡ (false, w))
        ⊎ ((token : String) × (read_csrf_cookie b.decode (b.cookie w.net) ≡ some token)
            × ((try_refresh b w).1.sent ≡ w.sent ++ refresh_request token ∷ []))
  unfolding try_refresh
  try_refresh_cases w = elim (Option-cases (read_csrf_cookie b.decode (b.cookie w.net))) [
    | inl missing ↦ inl (rw (missing, try_refresh))
    | inr (token, found) ↦ inr (token, found, rw (found, try_refresh))
  ]

module _ (b : Browser) (path : String) (opts : FetchOpts) where
  again : FetchOpts
  again = record opts { skip_refresh = true }

  again-IsFor : (w : World b) (r : Request) → IsFor b path again w r → IsFor b path opts w r
  unfolding again
  again-IsFor w r f = record {
    to_path = f.to_path;
    by_method = f.by_method;
    with_body = f.with_body;
    credentialed = f.credentialed;
    guarded = f.guarded;
  }

  -- What the `catch` sends from the world `w`.
  data Second (w : World b) (ks : List Request) : Type 0 where
    nothing : ks ≡ [] → Second w ks
    refresh :
        (token : String)
        → read_csrf_cookie b.decode (b.cookie w.net) ≡ some token
        → ks ≡ refresh_request token ∷ []
        → Second w ks
    retry :
        (token : String) (r : Request)
        → read_csrf_cookie b.decode (b.cookie w.net) ≡ some token
        → IsFor b path opts (try_refresh b w).1 r
        → ks ≡ refresh_request token ∷ r ∷ []
        → Second w ks

  retry_sends :
      (w : World b) (token : String)
      → read_csrf_cookie b.decode (b.cookie w.net) ≡ some token
      → (try_refresh b w).1.sent ≡ w.sent ++ refresh_request token ∷ []
      → (ks : List Request) × ((raw_fetch b path again (try_refresh b w).1).1.sent ≡ w.sent ++ ks)
        × Second w ks
  retry_sends w token held e = elim (raw_fetch_cases b path again (try_refresh b w).1) [
    | inl refused ↦
        (refresh_request token ∷ [], ap (λ p. p.1.sent) refused ∙ e, refresh token held refl)
    | inr (r, made, sends) ↦ (
      refresh_request token ∷ r ∷ [],
      sends ∙ (ap (λ s. s ++ r ∷ []) e ∙ append_assoc w.sent (refresh_request token ∷ []) (r ∷ [])),
      retry token r held (again-IsFor (try_refresh b w).1 r made) refl,
    )
  ]

  recover-retries :
      (e : Thrown) (w : World b)
      → may_refresh path opts e ≡ true
      → (try_refresh b w).0 ≡ true
      → recover b path opts (err e) w ≡ raw_fetch b path again (try_refresh b w).1
  unfolding recover again
  recover-retries e w may done = rw (may, recover) (rw (done, recover))

  recover-gives_up :
      (e : Thrown) (w : World b)
      → may_refresh path opts e ≡ true
      → (try_refresh b w).0 ≡ false
      → recover b path opts (err e) w ≡ (err e, (try_refresh b w).1)
  unfolding recover
  recover-gives_up e w may failed = rw (may, recover) (rw (failed, recover))

  recover-passes_on :
      (e : Thrown) (w : World b)
      → may_refresh path opts e ≡ false
      → recover b path opts (err e) w ≡ (err e, w)
  unfolding recover
  recover-passes_on e w may = rw (may, recover)

  Sends : World b → Result (Option Json) × World b → Type 0
  Sends w p = (ks : List Request) × (p.1.sent ≡ w.sent ++ ks) × Second w ks

  stays : (w : World b) (r : Result (Option Json)) → Sends w (r, w)
  unfolding Sends
  stays w r = ([], sym (append-nil w.sent), nothing refl)

  refresh-Sends :
      (e : Thrown) (w : World b)
      → may_refresh path opts e ≡ true
      → Sends w (recover b path opts (err e) w)
  unfolding Sends
  refresh-Sends e w may = elim (try_refresh_cases b path opts w) [
    | inl failed ↦
        subst (Sends w)
          (sym (recover-gives_up e w may (ap (λ p. p.0) failed) ∙ ap (λ p. (err e, p.1)) failed))
          (stays w (err e))
    | inr (token, held, sends) ↦ elim (Bool-cases (try_refresh b w).0) [
      | inl done ↦
          subst (Sends w) (sym (recover-retries e w may done)) (retry_sends w token held sends)
      | inr failed ↦
          subst (Sends w) (sym (recover-gives_up e w may failed))
            (refresh_request token ∷ [], sends, refresh token held refl)
    ]
  ]

  recover-Sends : (r : Result (Option Json)) (w : World b) → Sends w (recover b path opts r w)
  unfolding recover
  recover-Sends (ok body) w = stays w (ok body)
  recover-Sends (err e) w = elim (Bool-cases (may_refresh path opts e)) [
    | inl may ↦ refresh-Sends e w may
    | inr not_so ↦ subst (Sends w) (sym (recover-passes_on e w not_so)) (stays w (err e))
  ]

  join :
      (w : World b) (r : Request) (ks : List Request)
      → IsFor b path opts w r
      → Second (raw_fetch b path opts w).1 ks
      → Exchange b path opts w (r ∷ ks)
  unfolding HoldsToken
  join w r ks f (nothing e) = once r f (ap (λ l. r ∷ l) e)
  join w r ks f (refresh token held e) = refreshed r token f held (ap (λ l. r ∷ l) e)
  join w r ks f (retry token r' held f' e) = retried r r' token f held f' (ap (λ l. r ∷ l) e)

  -- A call of `apiFetch`, whatever the server answers, sends none, one, two or three requests: one
  -- that is built for the call, at most one refresh behind it, and at most one repetition of the
  -- call behind that. Each request for the call has the call's path, method and body, carries the
  -- credentials, and, where its method changes state, the CSRF token of the cookie at that time: for the
  -- first request before it was sent, for the refresh once the first was answered, and for the
  -- repetition once the refresh was.
  pub api_fetch-Exchange :
      (w : World b)
      → (ks : List Request) × ((api_fetch b path opts w).1.sent ≡ w.sent ++ ks)
        × Exchange b path opts w ks
  unfolding api_fetch Sends
  api_fetch-Exchange w = elim (raw_fetch_cases b path opts w) [
    | inl refused ↦ rw (refused, api_fetch) ([], sym (append-nil w.sent), silent refl)
    | inr (r, made, sends) ↦
        let (ks, grown, second) =
          recover-Sends (raw_fetch b path opts w).0 (raw_fetch b path opts w).1 in
        (
          r ∷ ks,
          grown ∙ (ap (λ s. s ++ ks) sends ∙ append_assoc w.sent (r ∷ []) ks),
          join w r ks made second,
        )
  ]
