-- ===== src/Examples/Entry.antt =====
-- Concrete runs of the gates and of the setup wizard.
use control_room.Base.{true, false, List, [], ◌∷◌, none, some, ◌≡◌, ◌≢◌, refl, All}
use control_room.Queries.Types.{MeUser}
use control_room.Gates.{Session, app_page, login_page, setup_page, children, follow}
use control_room.Gates.Laws.{gates_settle, stale_session_loops}
use control_room.Setup
use control_room.Setup.{
  Wizard, AccountValues, token, account, totp, done, submit_token, token_accepted, submit_account,
  press_enable, preview_loaded, type_code, press_verify, press_skip, completed, completion_failed,
  start,
}
use control_room.Setup.Laws.{IsValid, completions-IsValid}
use control_room.Setup.Strength.{evaluate_password, length16, points, test}

abbrev user : MeUser
user = record {
  id = "1";
  username = "admin";
  role = "admin";
  totp_enabled = false;
  created_at = "";
}

-- Set up, and with no session.
abbrev visitor : Session
visitor = record {
  setup = record { is_loading = false; is_error = false; value = some false };
  me = record { is_loading = false; is_error = true; value = none };
}

gates_settle_example : follow 2 setup_page visitor ≡ some (login_page, children)
gates_settle_example =
    gates_settle setup_page visitor refl (record { loaded = refl; failed_or_has_data = refl })

-- The session's query had loaded, and failed when it was refreshed.
abbrev stale : Session
stale = record visitor { me = record { is_loading = false; is_error = true; value = some user } }

stale_session_loops_example :
    (follow 100 app_page stale ≡ none) × (follow 100 login_page stale ≡ none)
stale_session_loops_example = stale_session_loops 100 stale (record {
  setup_done = refl;
  setup_loaded = refl;
  me_loaded = refl;
  me_failed = refl;
  me_has_data = refl;
})

abbrev values : AccountValues
values = record { username = "admin"; password = "correct horse"; confirm = "correct horse" }

abbrev visit : List Setup.Event
visit =
    submit_token "0123456789abcdef0123456789abcdef"
    ∷ token_accepted
    ∷ submit_account values
    ∷ press_enable
    ∷ preview_loaded (record { secret = "S"; qr_data_uri = "" })
    ∷ type_code "12 34-56"
    ∷ press_verify
    ∷ completed
    ∷ []

sends_code :
    (Setup.run visit start).sent
    ≡ record { username = "admin"; password = "correct horse"; totp_code = some ("S", "123456") }
      ∷ []
unfolding Setup.run Setup.handle Setup.submit Setup.totp_of Setup.trim_start Setup.trim_end
    Setup.digits_of Setup.accepts Setup.valid_username Setup.all_chars length16 evaluate_password
    points test
sends_code = refl

completions-IsValid_example :
    let w = Setup.run visit start in All IsValid w.sent × (w.step ≡ done → w.sent ≢ [])
completions-IsValid_example = completions-IsValid visit

abbrev at_totp : Wizard
at_totp = record start { step = totp; account_values = some values }
