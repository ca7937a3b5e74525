-- ===== src/Examples/Views.antt =====
-- Concrete runs of the live views: logs, jobs and the system's figures.
use control_room.Base.{
  ℕ, String, false, List, [], ◌∷◌, ◌++◌, Option, none, some, ◌≡◌, refl, ◌is◌, if◌then◌else◌,
}
use control_room.Logs
use control_room.Logs.{max_lines, Feed, message, clear, empty_view}
use control_room.Logs.Feeds.{LogFrame, service_feed}
use control_room.Logs.Buffer.{last, history, view-last}
use control_room.Logs.Journal.{press_live, type_unit}
use control_room.Logs.Tail
use control_room.Logs.Tail.{change, broken}
use control_room.Jobs
use control_room.Jobs.{JobStatus, rest_answer, frame, cleanup, start, running, succeeded}
use control_room.Jobs.Laws.{chunk_of, state_of}
use control_room.Stats
use control_room.Stats.{Link, init, delay, cleanup, connecting}
use control_room.Stats.Laws.{run-init-Inv, Inv}

-- Every text is a line, but for one that reports an error.
abbrev read_frame : String → Option LogFrame
read_frame s =
    if s is "!"
    then some (record { type = "error"; stream = none; line = none; err = none })
    else some (record { type = "line"; stream = none; line = some s; err = none })

abbrev service_view : List Logs.Event → Logs.View String
unfolding Logs.run service_feed
service_view es = Logs.run (service_feed read_frame) es empty_view

-- An error leaves the lines alone, and is shown beside them.
shows_error :
    service_view (message "a" ∷ message "!" ∷ message "b" ∷ [])
    ≡ record { lines = "a" ∷ "b" ∷ []; paused = false; error = some "log stream error" }
unfolding service_view Logs.run Logs.step Logs.on_message Logs.on_frame Logs.append_item
    Logs.push_capped service_feed
shows_error = refl

view-last_example :
    (Logs.run (service_feed read_frame) (message "a" ∷ clear ∷ message "b" ∷ []) empty_view).lines
    ≡ last max_lines (history (service_feed read_frame) (message "a" ∷ clear ∷ message "b" ∷ []) [])
view-last_example = view-last (service_feed read_frame) (message "a" ∷ clear ∷ message "b" ∷ [])

-- The job as it was when the REST call was answered.
abbrev early_status : JobStatus
early_status = record {
  id = "7";
  action = "apply";
  state = running;
  started_at = "";
  finished_at = none;
  error = none;
  output = some "start";
}

-- The answer of the REST call comes behind the last frames.
late_answer :
    let v =
      Jobs.run
        ((chunk_of "end" ∷ state_of succeeded ∷ []) ++ rest_answer (some early_status) ∷ [])
        start in
    (v.output ≡ "start") × (v.state ≡ some running)
unfolding Jobs.run Jobs.step start
late_answer = (refl, refl)

-- A socket that fails, is opened again, and fails again.
abbrev two_failures : List (Stats.Event ℕ)
two_failures = Stats.on_close ∷ Stats.timer_fires ∷ Stats.on_open ∷ Stats.on_close ∷ []

retry_delay : (Stats.run two_failures init).timer ≡ some 1000
unfolding Stats.run Stats.step init Stats.connect delay
retry_delay = refl

run-init-Inv_example : Inv (Stats.run two_failures init)
run-init-Inv_example = run-init-Inv two_failures

-- The live journal is opened, its unit is typed, and the socket is lost.
abbrev tailing : List Tail.Event
tailing = change (press_live false) ∷ change (type_unit "ssh.service") ∷ broken ∷ []
