-- ===== src/Settings/Password.antt =====
-- `ChangePasswordForm` of web/src/routes/Settings.tsx.
use control_room.Base.{
  String, Bool, true, false, not, ◌&&◌, List, [], ◌∷◌, Option, none, some, ◌is◌, leb, if◌then◌else◌,
  or_default, is_some, ◌≡◌, ◌≤◌, refl, arith, All,
}
use control_room.Setup.Strength.{length16}

pub record PwForm : Type 0 where
  pub current : String
  pub new : String
  pub confirm : String

-- What is posted: the current and the new password.
pub record Form : Type 0 where
  pub error : Option String
  pub success : Bool
  pub is_pending : Bool
  pub sent : List (String × String)

pub data Event : Type 0 where
  submit : PwForm → Event
  changed : Event
  -- the message of an `ApiError`
  refused : Option String → Event

abbrev pub empty_form : Form
empty_form = record { error = none; success = false; is_pending = false; sent = [] }

-- The rules of the three inputs.
unfoldable pub passes : PwForm → Bool
passes f =
    not (f.current is "")
    && leb 12 (length16 f.new)
    && leb (length16 f.new) 72
    && not (f.confirm is "")

-- `onSubmit` up to the call.
unfoldable pub on_submit : PwForm → Form → Form
on_submit f s =
    if f.new is f.confirm
    then record s {
      error = none;
      success = false;
      is_pending = true;
      sent = (f.current, f.new) ∷ s.sent;
    }
    else record s { error = some "New password and confirmation do not match"; success = false }

unfoldable pub step : Event → Form → Form
unfolding passes on_submit
step (submit f) s = if s.is_pending then s else if passes f then on_submit f s else s
step changed s = if s.is_pending then record s { is_pending = false; success = true } else s
step (refused m) s =
    if s.is_pending
    then record s { is_pending = false; error = some (or_default m "Could not change password") }
    else s

unfoldable pub run : List Event → Form → Form
run [] s = s
run (e ∷ es) s = run es (step e s)

abbrev pub IsLongEnough : String × String → Type 0
IsLongEnough (current, new) = (12 ≤ length16 new) × (length16 new ≤ 72)

pub record Inv (s : Form) : Type 0 where
  pub one_message : s.success && is_some s.error ≡ false
  pub silent : s.is_pending ≡ true → (s.error ≡ none) × (s.success ≡ false)
  pub sent_long : All IsLongEnough s.sent

step-Inv : (e : Event) (s : Form) → Inv s → Inv (step e s)
unfolding step
step-Inv e s v = record {
  one_message = ground (arith, v.one_message, v.silent);
  silent = λ h. ground (arith, v.silent);
  sent_long = ground (arith, v.sent_long);
}

run-Inv : (es : List Event) (s : Form) → Inv s → Inv (run es s)
unfolding run
run-Inv [] s v = v
run-Inv (e ∷ es) s v = run-Inv es (step e s) (step-Inv e s v)

-- However the form is used, it never shows a success and an error at once, it shows neither while a
-- change is pending, and every new password that it sends has 12 to 72 UTF-16 code units.
pub password_form-Inv : (es : List Event) → Inv (run es empty_form)
password_form-Inv es =
    run-Inv es empty_form (record { one_message = refl; silent = λ h. cc; sent_long = tt })
