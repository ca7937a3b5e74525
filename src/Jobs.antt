-- ===== src/Jobs.antt =====
-- web/src/lib/updates.ts: `useJobStream`, the view of a running job. One run of its effect: the job
-- is fixed, and the answer of the REST call and the frames of the socket come in any order.
pub mod Laws
use control_room.Base.{
  String, Bool, true, false, not, List, [], ◌∷◌, Option, none, some, ◌is◌, ◌<>◌, if◌then◌else◌,
  or_default,
}

pub data JobState : Type 0 where
  running succeeded failed cancelled not_found : JobState

-- `JobStatus`, as far as the view reads it.
pub record JobStatus : Type 0 where
  pub id : String
  pub action : String
  pub state : JobState
  pub started_at : String
  pub finished_at : Option String
  pub error : Option String
  pub output : Option String

-- `JobFrame`; a frame of another type is `other`.
pub data FrameType : Type 0 where
  snapshot chunk state other : FrameType

pub record JobFrame : Type 0 where
  pub type : FrameType
  pub output : Option String
  pub state : Option JobState

pub record Stream : Type 0 where
  pub output : String
  pub state : Option JobState
  pub error : Option String
  -- the effect's local variable
  pub is_cancelled : Bool

-- A frame is `none` where `JSON.parse` throws; the answer of the REST call, where it rejects.
pub data Event : Type 0 where
  rest_answer : Option JobStatus → Event
  frame : Option JobFrame → Event
  socket_error cleanup : Event

-- No job: everything is reset.
unfoldable pub no_job : Stream
no_job = record { output = ""; state = none; error = none; is_cancelled = false }

-- What the effect sets before any answer.
unfoldable pub start : Stream
start = record { output = ""; state = some running; error = none; is_cancelled = false }

-- `if (s) setError(s)`: an empty text is falsy.
abbrev error_from : Option String → Option String → Option String
error_from none e = e
error_from (some s) e = if s is "" then e else some s

unfoldable pub on_rest : Option JobStatus → Stream → Stream
on_rest none v = if v.is_cancelled then v else record v { error = some "failed to load job" }
on_rest (some j) v = if v.is_cancelled then v else record v {
  output = or_default j.output "";
  state = some j.state;
  error = error_from j.error v.error;
}

on_snapshot : Option String → Stream → Stream
on_snapshot none v = v
on_snapshot (some s) v = record v { output = s }

on_chunk : Option String → Stream → Stream
on_chunk none v = v
on_chunk (some s) v = if s is "" then v else record v { output = v.output <> s }

on_state : Option JobState → Stream → Stream
on_state none v = v
on_state (some s) v = record v { state = some s }

-- `ws.onmessage`, behind the parse.
on_frame : FrameType → JobFrame → Stream → Stream
unfolding on_snapshot on_chunk on_state
on_frame snapshot f v = on_snapshot f.output v
on_frame chunk f v = on_chunk f.output v
on_frame state f v = on_state f.state v
on_frame other f v = v

unfoldable pub step : Event → Stream → Stream
unfolding on_rest on_frame
step (rest_answer j) v = on_rest j v
step (frame none) v = v
step (frame (some f)) v = on_frame f.type f v
step socket_error v = if v.is_cancelled then v else record v { error = some "connection error" }
step cleanup v = record v { is_cancelled = true }

unfoldable pub run : List Event → Stream → Stream
run [] v = v
run (e ∷ es) v = run es (step e v)
