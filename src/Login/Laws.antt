-- ===== src/Login/Laws.antt =====
-- What the form of web/src/routes/Login.tsx sends, and where a login ends.
use control_room.Base.{
  String, Bool, true, not, ◌&&◌, List, [], ◌∷◌, ◌++◌, some, All, includes, ◌≡◌, arith, eq_iff,
  Bool-cases, inl, inr, ap,
}
use control_room.Login.{
  FormValues, LoginRequest, LoginForm, Event, submit, signed_in, refused, is_code, accepts, totp_of,
  request_of, asks_totp, step, run,
}

-- A request that carries a code of six digits.
pub data HasCode (r : LoginRequest) : Type 0 where
  code : (t : String) → is_code t ≡ true → r.totp ≡ some t → HasCode r

-- The code is needed, and these requests carry one.
record Asking (s : LoginForm) (before : List LoginRequest) : Type 0 where
  needs : s.needs_totp ≡ true
  sent : List LoginRequest
  later : s.sent ≡ sent ++ before
  codes : All HasCode sent

request_HasCode :
    (v : FormValues) (needs : Bool)
    → needs ≡ true
    → accepts needs v ≡ true
    → HasCode (request_of needs v)
unfolding accepts request_of totp_of
request_HasCode v needs n h =
    code v.totp (ground (arith, n, h)) (ground (arith, n, h, eq_iff v.totp ""))

step-Asking :
    (before : List LoginRequest) (e : Event) (s : LoginForm)
    → Asking s before
    → Asking (step e s) before
unfolding step
step-Asking before (submit v) s a = elim (Bool-cases (accepts s.needs_totp v && not s.is_pending)) [
  | inl e ↦ rw e (record {
    needs = a.needs;
    sent = request_of s.needs_totp v ∷ a.sent;
    later = ap (λ rs. request_of s.needs_totp v ∷ rs) a.later;
    codes = (request_HasCode v s.needs_totp a.needs (ground (arith, e)), a.codes);
  })
  | inr e ↦ rw e a
]
step-Asking before (signed_in u) s a = record {
  needs = ground (arith, a.needs);
  sent = a.sent;
  later = ground (arith, a.later);
  codes = a.codes;
}
step-Asking before (refused m) s a = record {
  needs = ground (arith, a.needs);
  sent = a.sent;
  later = ground (arith, a.later);
  codes = a.codes;
}

run-Asking :
    (before : List LoginRequest) (es : List Event) (s : LoginForm)
    → Asking s before
    → Asking (run es s) before
unfolding run
run-Asking before [] s a = a
run-Asking before (e ∷ es) s a = run-Asking before es (step e s) (step-Asking before e s a)

-- Once the server has refused a login with a message that asks for the second factor, every request
-- that the form sends after that, however it is used, carries a code of six digits.
pub login_asks_code :
    (m : String) (es : List Event) (s : LoginForm)
    → includes m "totp" ≡ true
    → s.is_pending ≡ true
    → (later : List LoginRequest) × ((run (refused (some m) ∷ es) s).sent ≡ later ++ s.sent)
      × All HasCode later
unfolding run step asks_totp
login_asks_code m es s h k =
    let a =
      run-Asking s.sent es (step (refused (some m)) s) (record {
        needs = ground (arith, h, k);
        sent = [];
        later = ground (arith, k);
        codes = tt;
      }) in
    (a.sent, a.later, a.codes)
