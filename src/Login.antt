-- ===== src/Login.antt =====
-- web/src/routes/Login.tsx: the form that signs in, on the session of Gates. An answer arrives as an
-- event for the request that is pending.
pub mod Laws
use control_room.Base.{
  ℕ, String, Bool, true, false, not, ◌&&◌, ◌||◌, ◌==◌, List, [], ◌∷◌, Option, none, some, ◌is◌,
  if◌then◌else◌, includes,
}
use control_room.Setup.Strength.{length16, is_digit}
use control_room.Setup.{all_chars}
use control_room.Queries.Types.{MeUser}
use control_room.Gates.{Session, Page, login_page, app_page, logged_in}

pub record FormValues : Type 0 where
  pub username : String
  pub password : String
  pub totp : String

-- What `login` sends.
pub record LoginRequest : Type 0 where
  pub username : String
  pub password : String
  pub totp : Option String

-- `page` is where the browser is, and in `sent` is what was sent, the last one first.
pub record LoginForm : Type 0 where
  pub needs_totp : Bool
  pub is_pending : Bool
  pub error_message : Option String
  pub sent : List LoginRequest
  pub session : Session
  pub page : Page

-- A failure has a message when it is an `ApiError`.
pub data Event : Type 0 where
  submit : FormValues → Event
  signed_in : MeUser → Event
  refused : Option String → Event

abbrev pub open_form : Session → LoginForm
open_form session = record {
  needs_totp = false;
  is_pending = false;
  error_message = none;
  sent = [];
  session = session;
  page = login_page;
}

-- The `pattern` of the code's field, which the browser demands of a text that is not empty.
unfoldable pub is_code : String → Bool
unfolding all_chars
is_code t = all_chars is_digit t && length16 t == 6

-- The rules of the fields; the code's field is there once it is needed.
unfoldable pub accepts : Bool → FormValues → Bool
unfolding is_code
accepts needs v =
    not (v.username is "")
    && not (v.password is "")
    && (not needs || (not (v.totp is "") && is_code v.totp))

-- `values.totp || undefined`; without its field the code is empty.
unfoldable pub totp_of : Bool → String → Option String
totp_of needs t = if not needs || t is "" then none else some t

unfoldable pub request_of : Bool → FormValues → LoginRequest
unfolding totp_of
request_of needs v = record {
  username = v.username;
  password = v.password;
  totp = totp_of needs v.totp;
}

-- `err instanceof ApiError && err.message.includes('totp')`
unfoldable pub asks_totp : Option String → Bool
unfolding includes
asks_totp none = false
asks_totp (some m) = includes m "totp"

-- The message that is shown for the last failure.
unfoldable pub message_of : Option String → String
message_of none = "Login failed"
message_of (some m) = m

unfoldable pub step : Event → LoginForm → LoginForm
unfolding accepts request_of asks_totp message_of logged_in
step (submit v) s =
    if accepts s.needs_totp v && not s.is_pending
    then record s {
      is_pending = true;
      error_message = none;
      sent = request_of s.needs_totp v ∷ s.sent;
    }
    else s
step (signed_in u) s =
    if s.is_pending
    then record s { is_pending = false; session = logged_in u s.session; page = app_page }
    else s
step (refused m) s =
    if s.is_pending
    then record s {
      is_pending = false;
      error_message = some (message_of m);
      needs_totp = s.needs_totp || asks_totp m;
    }
    else s

unfoldable pub run : List Event → LoginForm → LoginForm
run [] s = s
run (e ∷ es) s = run es (step e s)
