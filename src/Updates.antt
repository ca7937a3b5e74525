-- ===== src/Updates.antt =====
-- web/src/routes/Updates.tsx: the page that starts jobs and shows the one that it follows, on the stream
-- of Jobs. An answer arrives as an event for the mutation that is pending.
pub mod Laws
pub mod Reboot
use control_room.Base.{
  ℕ, suc, String, Bool, true, false, not, ◌&&◌, ◌||◌, List, [], ◌∷◌, Option, none, some, ◌is◌, ◌==◌,
  keep, length, if◌then◌else◌,
}
use control_room.Queries.Types.{UpdatePackage}
use control_room.Jobs.{
  JobState, running, succeeded, failed, cancelled, not_found, Stream, no_job, start,
}
use control_room.Jobs

pub data DrawerKind : Type 0 where
  check apply reboot : DrawerKind

-- `job` is the stream of the job `job_id`, and `refetches` counts how often the list was read again. In
-- `reboots` the requests to reboot are counted.
pub record Page : Type 0 where
  pub packages : List UpdatePackage
  pub drawer : Option DrawerKind
  pub job_id : Option String
  pub confirm_install : Bool
  pub reboot_text : String
  pub checking : Bool
  pub applying : Bool
  pub rebooting : Bool
  pub checks : ℕ
  pub applies : ℕ
  pub reboots : ℕ
  pub job : Stream
  pub refetches : ℕ

-- A failed apply has the identifier that its `detail` names when it is an `ApiError` of status 409.
pub data Event : Type 0 where
  press_check : Event
  check_started : String → Event
  check_failed press_install cancel_install press_apply : Event
  apply_started : String → Event
  apply_failed : Option String → Event
  type_reboot : String → Event
  press_reboot : Event
  reboot_started : String → Event
  reboot_failed close_drawer : Event
  list_loaded : List UpdatePackage → Event
  job_event : Jobs.Event → Event

unfoldable pub open_page : Page
unfolding no_job
open_page = record {
  packages = [];
  drawer = none;
  job_id = none;
  confirm_install = false;
  reboot_text = "";
  checking = false;
  applying = false;
  rebooting = false;
  checks = 0;
  applies = 0;
  reboots = 0;
  job = no_job;
  refetches = 0;
}

unfoldable pub security_count : Page → ℕ
security_count s = length (keep (λ p. p.security) s.packages)

-- A number for each state of a job, to compare them.
abbrev pub rank : JobState → ℕ
rank running = 0
rank succeeded = 1
rank failed = 2
rank cancelled = 3
rank not_found = 4

abbrev pub same_state : Option JobState → Option JobState → Bool
same_state none none = true
same_state none (some b) = false
same_state (some a) none = false
same_state (some a) (some b) = rank a == rank b

-- The test of the effect.
unfoldable pub has_ended : Option JobState → Bool
has_ended none = false
has_ended (some succeeded) = true
has_ended (some failed) = true
has_ended (some cancelled) = true
has_ended (some running) = false
has_ended (some not_found) = false

-- The effect runs after a render with another state of the job than before.
unfoldable pub with_job : Stream → Page → Page
unfolding has_ended
with_job v s =
    let again = not (same_state s.job.state v.state) && has_ended v.state in
    record s { job = v; refetches = if again then suc s.refetches else s.refetches }

unfoldable pub same_id : Option String → Option String → Bool
same_id none none = true
same_id none (some b) = false
same_id (some a) none = false
same_id (some a) (some b) = a is b

-- What the stream begins with for a job: an empty identifier is falsy.
unfoldable pub stream_for : Option String → Stream
unfolding no_job start
stream_for none = no_job
stream_for (some i) = if i is "" then no_job else start

-- `setJobId(id)`: the stream begins anew when the identifier is another one.
unfoldable pub set_job : Option String → Page → Page
unfolding same_id stream_for with_job
set_job i s = if same_id i s.job_id then s else with_job (stream_for i) (record s { job_id = i })

-- `if (otherID) setJobId(otherID)`
unfoldable pub set_other : Option String → Page → Page
unfolding set_job
set_other none s = s
set_other (some i) s = if i is "" then s else set_job (some i) s

-- An event of the job's stream, if there is one.
unfoldable pub on_job : Option String → Jobs.Event → Page → Page
unfolding with_job Jobs.step
on_job none e s = s
on_job (some i) e s = if i is "" then s else with_job (Jobs.step e s.job) s

-- The button that asks for a confirmation is disabled without packages.
unfoldable pub on_install : List UpdatePackage → Page → Page
on_install [] s = s
on_install (p ∷ ps) s = record s { confirm_install = true }

unfoldable pub step : Event → Page → Page
unfolding set_job set_other on_job on_install
step press_check s =
    if s.checking
    then s
    else record s { drawer = some check; checking = true; checks = suc s.checks }
step (check_started i) s =
    if s.checking then set_job (some i) (record s { checking = false }) else s
step check_failed s = record s { checking = false }
step press_install s = on_install s.packages s
step cancel_install s = record s { confirm_install = false }
step press_apply s =
    if s.confirm_install && not s.applying
    then record s {
      confirm_install = false;
      drawer = some apply;
      applying = true;
      applies = suc s.applies;
    }
    else s
step (apply_started i) s =
    if s.applying then set_job (some i) (record s { applying = false }) else s
step (apply_failed other) s =
    if s.applying then set_other other (record s { applying = false }) else s
step (type_reboot t) s = record s { reboot_text = t }
step press_reboot s =
    if s.reboot_text is "REBOOT" && not s.rebooting
    then record s { drawer = some reboot; rebooting = true; reboots = suc s.reboots }
    else s
step (reboot_started i) s =
    if s.rebooting
    then record (set_job (some i) (record s { rebooting = false })) { reboot_text = "" }
    else s
step reboot_failed s = if s.rebooting then record s { rebooting = false; reboot_text = "" } else s
step close_drawer s = set_job none (record s { drawer = none })
step (list_loaded ps) s = record s { packages = ps }
step (job_event e) s = on_job s.job_id e s

unfoldable pub run : List Event → Page → Page
run [] s = s
run (e ∷ es) s = run es (step e s)
