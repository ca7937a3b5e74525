-- ===== src/Logs.antt =====
-- The live log views: web/src/components/services/LogStream.tsx,
-- web/src/components/containers/LogStream.tsx, web/src/components/k8s/PodLogStream.tsx, and
-- `LiveStream` and `DockerLogStream` of web/src/routes/Logs.tsx. They share one shape, `Feed`, and
-- differ in the frames that they take and in what they do when their socket is opened anew.
pub mod Feeds
pub mod Picker
pub mod Journal
pub mod Tail
pub mod Buffer
use control_room.Base.{
  ℕ, ◌-◌, String, Bool, true, false, not, List, [], ◌∷◌, ◌++◌, Option, none, some, ltb,
  if◌then◌else◌, or_default, length, drop,
}

-- `MAX_LINES` and `MAX_LIVE_ENTRIES`.
abbrev pub max_lines : ℕ
max_lines = 1000

-- What a view makes of the frames of its socket. `parse` is `JSON.parse` with the reads of the
-- frame's fields, `none` where these throw.
pub record Feed (F A : Type 0) : Type 0 where
  pub parse : String → Option F
  pub is_error : F → Bool
  pub err : F → Option String
  pub fallback : String
  pub item : F → Option A
  -- whether opening the socket anew empties the view
  pub resets : Bool

-- The state of a view.
pub record View (A : Type 0) : Type 0 where
  pub lines : List A
  pub paused : Bool
  pub error : Option String

pub data Event : Type 0 where
  message : String → Event
  socket_error reopen clear toggle_pause : Event

module _ {A : Type 0} where
  abbrev pub empty_view : View A
  empty_view = record { lines = []; paused = false; error = none }

  -- `next.length > max ? next.slice(-max) : next` for `next = [...prev, x]`
  unfoldable pub push_capped : ℕ → List A → A → List A
  push_capped cap prev x =
      let next = prev ++ x ∷ [] in
      if ltb cap (length next) then drop (length next - cap) next else next

  unfoldable pub append_item : Option A → View A → View A
  unfolding push_capped
  append_item none v = v
  append_item (some x) v = record v { lines = push_capped max_lines v.lines x }

module _ {F A : Type 0} (feed : Feed F A) where
  open feed use {parse, is_error, err, fallback, item, resets}

  -- `onmessage`, behind the parse.
  unfoldable pub on_frame : F → View A → View A
  unfolding append_item
  on_frame f v =
      if is_error f
      then record v { error = some (or_default (err f) fallback) }
      else append_item (item f) v

  unfoldable pub on_message : Option F → View A → View A
  unfolding on_frame
  on_message none v = v
  on_message (some f) v = on_frame f v

  unfoldable pub step : Event → View A → View A
  unfolding on_message
  step (message text) v = on_message (parse text) v
  step socket_error v = record v { error = some "connection error" }
  step reopen v = if resets then record v { lines = []; error = none } else v
  step clear v = record v { lines = [] }
  step toggle_pause v = record v { paused = not v.paused }

  unfoldable pub run : List Event → View A → View A
  run [] v = v
  run (e ∷ es) v = run es (step e v)
