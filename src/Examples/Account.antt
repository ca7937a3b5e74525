-- ===== src/Examples/Account.antt =====
-- Concrete runs of the forms of web/src/routes/Login.tsx and web/src/routes/Network.tsx.
use control_room.Base.{true, false, List, [], ◌∷◌, ◌++◌, none, some, ◌≡◌, refl, All, includes}
use control_room.Login
use control_room.Login.{LoginForm, LoginRequest, refused}
use control_room.Login.Laws.{HasCode, login_asks_code}
use control_room.Network.Form
use control_room.Network.Form.{
  empty_form, empty_spec, type_port, choose_proto, type_from, submit, added, add_failed, rule_cycle,
  edits,
}

-- No session, and the answer to a first login is awaited.
abbrev waiting : LoginForm
waiting =
    record (Login.open_form (record {
      setup = record { is_loading = false; is_error = false; value = some false };
      me = record { is_loading = false; is_error = true; value = none };
    })) {
      is_pending = true;
      sent = record { username = "admin"; password = "secret"; totp = none } ∷ [];
    }

-- A login without a code, then one with a code.
abbrev second_try : List Login.Event
second_try =
    Login.submit (record { username = "admin"; password = "secret"; totp = "" })
    ∷ Login.submit (record { username = "admin"; password = "secret"; totp = "123456" })
    ∷ []

login_asks_code_example :
    (later : List LoginRequest) × ((Login.run
        (refused (some "totp required") ∷ second_try)
        waiting).sent
      ≡ later ++ waiting.sent)
    × All HasCode later
unfolding includes
login_asks_code_example = login_asks_code "totp required" second_try waiting refl refl

abbrev typed : List Form.Event
typed = type_port "22" ∷ choose_proto "tcp" ∷ []

abbrev meanwhile : List Form.Event
meanwhile = type_from "10.0.0.0/8" ∷ []
