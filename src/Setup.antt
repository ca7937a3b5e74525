-- ===== src/Setup.antt =====
-- web/src/routes/Setup.tsx: the wizard of the first start, with the rules of its forms, on the calls of
-- web/src/lib/api.ts that it makes. An answer arrives as an event for the oldest call of its kind.
pub mod Finish
pub mod Strength
pub mod Meter
pub mod Laws
use Prim.Native.String.{[], ◌∷◌}
use control_room.Base.{
  ℕ, zero, suc, ◌+◌, ◌-◌, String, Char, code, Bool, true, false, not, ◌&&◌, ◌||◌, List, [], ◌∷◌,
  Option, none, some, ◌is◌, ◌==◌, ltb, leb, if◌then◌else◌, is_some, or_default,
}
use control_room.Setup.Strength.{
  length16, is_between, is_lower, is_upper, is_digit, evaluate_password, too_short,
}

pub data Step : Type 0 where
  token account totp done : Step

pub record AccountValues : Type 0 where
  pub username : String
  pub password : String
  pub confirm : String

pub record TotpEnrollment : Type 0 where
  pub secret : String
  pub qr_data_uri : String

-- What `submit` sends; `totp` is the secret with the code.
pub record SetupRequest : Type 0 where
  pub username : String
  pub password : String
  pub totp_code : Option (String × String)

-- The calls that await an answer; in `tokens` and `sent` what was sent, the last one first.
pub record Wizard : Type 0 where
  pub step : Step
  pub account_values : Option AccountValues
  pub enrollment : Option TotpEnrollment
  pub error : Option String
  pub code_typed : String
  pub verifying : Bool
  pub tokens : List String
  pub previews : ℕ
  pub completions : ℕ
  pub sent : List SetupRequest

-- A failure has a message when it is an `ApiError`.
pub data Event : Type 0 where
  submit_token : String → Event
  token_accepted : Event
  token_refused : Option String → Event
  submit_account : AccountValues → Event
  press_enable : Event
  preview_loaded : TotpEnrollment → Event
  preview_failed : Option String → Event
  type_code : String → Event
  press_verify press_skip press_back : Event
  completed : Event
  completion_failed : Option String → Event

abbrev pub start : Wizard
start = record {
  step = token;
  account_values = none;
  enrollment = none;
  error = none;
  code_typed = "";
  verifying = false;
  tokens = [];
  previews = 0;
  completions = 0;
  sent = [];
}

-- `/^[p]*$/.test(s)`
unfoldable pub all_chars : (Char → Bool) → String → Bool
all_chars p [] = true
all_chars p (c ∷ s) = p c && all_chars p s

-- A character of `/^[a-zA-Z0-9_-]{3,32}$/`.
abbrev pub is_name_char : Char → Bool
is_name_char c = is_lower c || is_upper c || is_digit c || code c == 95 || code c == 45

unfoldable pub valid_username : String → Bool
valid_username s = all_chars is_name_char s && leb 3 (length16 s) && leb (length16 s) 32

-- The rules of the account form, then `onSubmit` of the account step.
unfoldable pub accepts : AccountValues → Bool
accepts v =
    let level_is_short : Bool = elim (evaluate_password v.password).level [
      | too_short ↦ true
      | _ ↦ false
    ] in
    valid_username v.username
    && leb 12 (length16 v.password)
    && leb (length16 v.password) 72
    && not (v.confirm is "")
    && v.password is v.confirm
    && not level_is_short

-- `e.target.value.replace(/\D/g, '')`
unfoldable pub digits_of : String → String
digits_of [] = ""
digits_of (c ∷ s) = let rest = digits_of s in if is_digit c then c ∷ rest else rest

-- What `String.prototype.trim` takes for white space or a line's end.
abbrev pub is_space : Char → Bool
is_space c =
    is_between 9 13 c
    || code c == 32
    || code c == 160
    || code c == 5760
    || is_between 8192 8202 c
    || is_between 8232 8233 c
    || code c == 8239
    || code c == 8287
    || code c == 12_288
    || code c == 65_279

unfoldable pub trim_start : String → String
trim_start [] = ""
trim_start (c ∷ s) = let rest = trim_start s in if is_space c then rest else c ∷ s

unfoldable pub trim_end : String → String
trim_end [] = ""
trim_end (c ∷ s) = let rest = trim_end s in if rest is "" && is_space c then "" else c ∷ rest

abbrev pub trim : String → String
unfolding trim_start trim_end
trim s = trim_end (trim_start s)

-- `withTotp && enrollment ? { secret: enrollment.secret, code: code.trim() } : undefined`
unfoldable pub totp_of : Bool → Option TotpEnrollment → String → Option (String × String)
totp_of true (some e) typed = some (e.secret, trim typed)
totp_of true none typed = none
totp_of false e typed = none

-- `submit` of the last step, which is shown only when there is an account.
unfoldable pub submit : Bool → Option AccountValues → Wizard → Wizard
unfolding totp_of
submit with_totp none w = w
submit with_totp (some v) w = record w {
  completions = suc w.completions;
  sent =
      record {
        username = v.username;
        password = v.password;
        totp_code = totp_of with_totp w.enrollment w.code_typed;
      }
      ∷ w.sent;
}

abbrev pub is_totp : Wizard → Bool
is_totp w = elim w.step [ totp ↦ true | _ ↦ false ]

abbrev pub is_token : Wizard → Bool
is_token w = elim w.step [ token ↦ true | _ ↦ false ]

abbrev pub is_account : Wizard → Bool
is_account w = elim w.step [ account ↦ true | _ ↦ false ]

unfoldable pub handle : Event → Wizard → Wizard
unfolding submit
handle (submit_token t) w =
    if is_token w && not w.verifying && leb 32 (length16 t)
    then record w { verifying = true; tokens = trim t ∷ w.tokens }
    else w
handle token_accepted w =
    if w.verifying then record w { verifying = false; error = none; step = account } else w
handle (token_refused m) w =
    if w.verifying
    then record w { verifying = false; error = some (or_default m "Token check failed") }
    else w
handle (submit_account v) w =
    if is_account w && accepts v
    then record w { account_values = some v; error = none; step = totp }
    else w
handle press_enable w =
    if is_totp w && not (is_some w.enrollment) then record w { previews = suc w.previews } else w
handle (preview_loaded e) w =
    if w.previews == 0 then w else record w { previews = w.previews - 1; enrollment = some e }
handle (preview_failed m) w = if w.previews == 0 then w else record w {
  previews = w.previews - 1;
  error = some (or_default m "Could not generate 2FA enrollment");
}
handle (type_code s) w =
    if is_totp w && is_some w.enrollment then record w { code_typed = digits_of s } else w
handle press_verify w =
    if is_totp w && is_some w.enrollment && length16 w.code_typed == 6
    then submit true w.account_values w
    else w
handle press_skip w =
    if is_totp w && not (is_some w.enrollment) then submit false w.account_values w else w
handle press_back w =
    if is_totp w && is_some w.enrollment then record w { enrollment = none } else w
handle completed w =
    if w.completions == 0 then w else record w { completions = w.completions - 1; step = done }
handle (completion_failed m) w =
    if w.completions == 0
    then w
    else record w { completions = w.completions - 1; error = some (or_default m "Setup failed") }

unfoldable pub run : List Event → Wizard → Wizard
run [] w = w
run (e ∷ es) w = run es (handle e w)
