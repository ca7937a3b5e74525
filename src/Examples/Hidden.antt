-- ===== src/Examples/Hidden.antt =====
-- Concrete containers, log-outs and ends of the setup.
use control_room.Base.{String, true, false, List, [], ◌∷◌, ◌++◌, map, none, some, ◌≡◌, refl}
use control_room.Queries.Types.{ContainerDetail, MeUser, ServiceUnit}
use control_room.Queries.Cache.{Cache}
use control_room.Containers.Entry.Laws.{entry, has_equals, same_letters}
use control_room.Containers.Env.Hidden.{HasWord, same, secret, end}
use control_room.Containers.Detail
use control_room.Containers.Detail.{select, toggle, close}
use control_room.Containers.Detail.Masked.{
  AllQuiet, none_left, also, by_select, env_lines, closed_sheet_masks,
}
use control_room.Gates.{
  Session, app_page, setup_page, splash, children, navigate, gate, follow, set_data,
}
use control_room.Layout.Frame
use control_room.Layout.Frame.{Frame, left, rendered, me_answered, setup_answered}
use control_room.Layout.Frame.Leaving.{logout_lands}
use control_room.Setup.{start}
use control_room.Setup.Finish
use control_room.Setup.Finish.{Tab, finished, enter, fire, go}
use control_room.Setup.Finish.Redirect.{done_never_shown}

-- A container whose environment has a sensitive key.
abbrev container : String → ContainerDetail
container password = record {
  summary = record {
    id = "c1";
    name = "db";
    image = "postgres";
    state = "running";
    status = "Up 3 hours";
    created_at = "";
    ports = [];
    labels = [];
    compose_project = "shop";
    compose_service = "db";
  };
  command = "postgres" ∷ [];
  env = "PATH=/bin" ∷ entry "db_Password" password ∷ [];
  mounts = [];
  networks = [];
  started_at = "";
  finished_at = "";
  restart_policy = "always";
  exit_code = "0";
  health = none;
}

abbrev opening : String → List Detail.Event
opening password = select "c1" (some (container password)) ∷ []

opening-AllQuiet : (p : String) → AllQuiet (opening p)
opening-AllQuiet p = also _ _ (by_select _ _) none_left

-- The sheet was left with its secrets revealed.
abbrev revealed : Detail.View
revealed = record { id = some "c1"; detail = some (container "hunter2"); revealed = true }

password-HasWord : HasWord "db_Password"
unfolding same_letters
password-HasWord = record {
  before = "db_";
  part = "Password";
  behind = "";
  word = "PASSWORD";
  parts = refl;
  listed = refl;
  spelled = refl;
}

closed_sheet_masks_example :
    env_lines (Detail.run (close ∷ opening "hunter2") revealed)
    ≡ env_lines (Detail.run (close ∷ opening "swordfish") Detail.closed)
unfolding Detail.run Detail.step has_equals
closed_sheet_masks_example =
    closed_sheet_masks (opening "hunter2") (opening "swordfish") revealed Detail.closed
      (opening-AllQuiet "hunter2") (opening-AllQuiet "swordfish")
      (same "PATH=/bin" _ _
        (secret "db_Password" "hunter2" "swordfish" [] [] refl password-HasWord end))

abbrev admin : MeUser
admin = record { id = "1"; username = "ada"; role = "admin"; totp_enabled = false; created_at = "" }

abbrev signed_in : Session
signed_in = record { setup = set_data false; me = set_data admin }

abbrev frame : Frame
frame = record {
  drawer_open = false;
  path = "/logs";
  page = app_page;
  session = signed_in;
  cached = none;
  leaving = 1;
}

-- The log-out fails, and the server still accepts the session.
logout_lands_example :
    let t = Frame.run (left false ∷ rendered ∷ []) frame in
    let done = Frame.run (setup_answered false ∷ me_answered (some admin) ∷ []) t in
    let early =
      Frame.run
        (left false ∷ me_answered (some admin) ∷ rendered ∷ setup_answered false ∷ [])
        frame in
    (follow 2 t.page t.session ≡ some (app_page, splash))
    × (follow 2 done.page done.session ≡ some (app_page, children))
    × (follow 2 early.page early.session ≡ some (app_page, children))
logout_lands_example = logout_lands false (some admin) frame 0 refl

-- The setup's last step, with a completion under way.
abbrev waiting : Tab
waiting = record {
  wizard = record start { completions = 1 };
  session = record { setup = set_data true; me = set_data admin };
  page = setup_page;
  path = "/setup";
  timer = false;
}

done_never_shown_example :
    let after = Finish.step (finished admin) waiting in
    let there = Finish.run (map go (("/updates" ∷ []) ++ "/logs" ∷ [])) (Finish.step enter after) in
    (gate setup_page after.session ≡ navigate app_page)
    × (follow 2 setup_page after.session ≡ some (app_page, children))
    × (there.path ≡ "/logs")
    × ((Finish.step fire there).path ≡ "/")
done_never_shown_example = done_never_shown admin waiting 0 refl ("/updates" ∷ []) "/logs"

abbrev ssh : ServiceUnit
ssh = record {
  name = "ssh.service";
  description = "";
  load_state = "loaded";
  active_state = "active";
  sub_state = "running";
  unit_file_state = "enabled";
}

abbrev nothing : Cache
nothing q = record { value = none; is_stale = false }
