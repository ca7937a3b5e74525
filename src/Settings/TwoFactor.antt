-- ===== src/Settings/TwoFactor.antt =====
-- `TwoFactorCard` of web/src/routes/Settings.tsx.
use control_room.Base.{
  ℕ, suc, String, Bool, true, false, not, ◌&&◌, ◌==◌, List, [], ◌∷◌, Option, none, some, ◌is◌,
  if◌then◌else◌, or_default, is_some, ◌≡◌, ◌≢◌, refl, arith, eq_iff, All,
}
use control_room.Setup.Strength.{length16, is_digit}
use control_room.Setup.{TotpEnrollment, digits_of, trim, all_chars}
use control_room.Setup.Laws.{IsCode, digits_of-digits, trim-digits}

-- `enabled` is what the session's query says; `invalidated` counts how often it was asked anew. In
-- `verified` and `disabled_with` is what was sent, the last one first.
pub record Card : Type 0 where
  pub enabled : Bool
  pub enrollment : Option TotpEnrollment
  pub code_typed : String
  pub disable_pw : String
  pub error : Option String
  pub enrolling : Bool
  pub verifying : Bool
  pub disabling : Bool
  pub invalidated : ℕ
  pub verified : List (String × String)
  pub disabled_with : List String

-- A failure has a message when it is an `ApiError`.
pub data Event : Type 0 where
  press_enable : Event
  enrolled : TotpEnrollment → Event
  enroll_failed : Option String → Event
  type_code : String → Event
  press_cancel press_verify verify_done : Event
  verify_failed : Option String → Event
  type_password : String → Event
  press_disable disable_done : Event
  disable_failed : Option String → Event
  me_loaded : Bool → Event

abbrev pub open_card : Bool → Card
open_card enabled = record {
  enabled = enabled;
  enrollment = none;
  code_typed = "";
  disable_pw = "";
  error = none;
  enrolling = false;
  verifying = false;
  disabling = false;
  invalidated = 0;
  verified = [];
  disabled_with = [];
}

-- `verify.mutate()` where the card shows an enrollment.
unfoldable pub verify : Option TotpEnrollment → Card → Card
verify none s = s
verify (some e) s =
    if length16 s.code_typed == 6 && not s.verifying
    then record s { verifying = true; verified = (e.secret, trim s.code_typed) ∷ s.verified }
    else s

unfoldable pub step : Event → Card → Card
unfolding verify
step press_enable s =
    if not s.enabled && not (is_some s.enrollment) && not s.enrolling
    then record s { enrolling = true }
    else s
step (enrolled e) s =
    if s.enrolling then record s { enrolling = false; enrollment = some e; error = none } else s
step (enroll_failed m) s =
    if s.enrolling
    then record s { enrolling = false; error = some (or_default m "Could not start enrollment") }
    else s
step (type_code t) s = if is_some s.enrollment then record s { code_typed = digits_of t } else s
step press_cancel s =
    if is_some s.enrollment then record s { enrollment = none; code_typed = "" } else s
step press_verify s = verify s.enrollment s
step verify_done s =
    if s.verifying
    then record s {
      verifying = false;
      enrollment = none;
      code_typed = "";
      invalidated = suc s.invalidated;
    }
    else s
step (verify_failed m) s =
    if s.verifying
    then record s { verifying = false; error = some (or_default m "Could not verify code") }
    else s
step (type_password t) s = if s.enabled then record s { disable_pw = t } else s
step press_disable s =
    if s.enabled && not (s.disable_pw is "") && not s.disabling
    then record s { disabling = true; disabled_with = s.disable_pw ∷ s.disabled_with }
    else s
step disable_done s =
    if s.disabling
    then record s { disabling = false; disable_pw = ""; invalidated = suc s.invalidated }
    else s
step (disable_failed m) s =
    if s.disabling
    then record s { disabling = false; error = some (or_default m "Could not disable 2FA") }
    else s
step (me_loaded b) s = record s { enabled = b }

unfoldable pub run : List Event → Card → Card
run [] s = s
run (e ∷ es) s = run es (step e s)

pub record Inv (s : Card) : Type 0 where
  pub digits : all_chars is_digit s.code_typed ≡ true
  pub codes : All (λ p. IsCode p.1) s.verified
  pub passwords : All (λ p. p ≢ "") s.disabled_with

verify-Inv : (o : Option TotpEnrollment) (s : Card) → Inv s → Inv (verify o s)
unfolding verify
verify-Inv none s v = v
verify-Inv (some e) s v = record {
  digits = ground (arith, v.digits);
  codes = ground (arith, v.codes, v.digits, trim-digits s.code_typed v.digits);
  passwords = ground (arith, v.passwords);
}

no_digits : all_chars is_digit "" ≡ true
unfolding all_chars
no_digits = refl

step-Inv : (e : Event) (s : Card) → Inv s → Inv (step e s)
unfolding step
step-Inv press_verify s v = verify-Inv s.enrollment s v
step-Inv (type_code t) s v = record {
  digits = ground (arith, v.digits, digits_of-digits t);
  codes = ground (arith, v.codes);
  passwords = ground (arith, v.passwords);
}
step-Inv e s v = record {
  digits = ground (arith, v.digits, no_digits);
  codes = ground (arith, v.codes);
  passwords = ground (arith, v.passwords, eq_iff s.disable_pw "");
}

run-Inv : (es : List Event) (s : Card) → Inv s → Inv (run es s)
unfolding run
run-Inv [] s v = v
run-Inv (e ∷ es) s v = run-Inv es (step e s) (step-Inv e s v)

-- However the card is used, each code that it sends for verification has exactly six digits, and each
-- password that it sends to disable the second factor is not empty.
pub two_factor-Inv : (enabled : Bool) (es : List Event) → Inv (run es (open_card enabled))
unfolding all_chars
two_factor-Inv enabled es =
    run-Inv es (open_card enabled) (record { digits = refl; codes = tt; passwords = tt })

-- No enrollment is started successfully among these events.
abbrev pub NoEnrollment : List Event → Type 0
NoEnrollment [] = Unit
NoEnrollment (enrolled e ∷ es) = ⊥
NoEnrollment (_ ∷ es) = NoEnrollment es

verify-error :
    (o : Option TotpEnrollment) (s : Card)
    → is_some s.error ≡ true
    → is_some (verify o s).error ≡ true
unfolding verify
verify-error none s h = h
verify-error (some e) s h = ground (arith, h)

step-error :
    (e : Event) (s : Card)
    → NoEnrollment (e ∷ [])
    → is_some s.error ≡ true
    → is_some (step e s).error ≡ true
unfolding step
step-error (enrolled x) s q h = absurd q
step-error press_verify s q h = verify-error s.enrollment s h
step-error e s q h = ground (arith, h)

-- An error stays on the card until a new enrollment is started: neither a verification that succeeds
-- nor the second factor being disabled removes it.
pub error_sticks :
    (es : List Event) (s : Card)
    → NoEnrollment es
    → is_some s.error ≡ true
    → is_some (run es s).error ≡ true
unfolding run
error_sticks [] s q h = h
error_sticks (e ∷ es) s q h =
    let (now, later) = split e q in error_sticks es (step e s) later (step-error e s now h)
  where
    split : (e : Event) → NoEnrollment (e ∷ es) → NoEnrollment (e ∷ []) × NoEnrollment es
    split (enrolled x) q = absurd q
    split _ q = (tt, q)
