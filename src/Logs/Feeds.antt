-- ===== src/Logs/Feeds.antt =====
-- The five live log views, as feeds. `parse` stands for `JSON.parse` and the reads of the fields.
use control_room.Base.{
  ℕ, String, Bool, true, false, List, Option, none, some, ◌is◌, if◌then◌else◌, or_default, keep,
}
use mathlib.Core.Option
use control_room.Logs.{Feed}

-- `LogFrame` of web/src/lib/containers.ts; that of web/src/lib/services.ts has no `stream`.
pub record LogFrame : Type 0 where
  pub type : String
  pub stream : Option String
  pub line : Option String
  pub err : Option String

-- A line with the stream that it came from.
pub record DisplayLine : Type 0 where
  pub stream : String
  pub line : String

pub record LogLine : Type 0 where
  pub line : String

-- `LogEntry` of web/src/lib/logs.ts.
pub record LogEntry : Type 0 where
  pub timestamp : String
  pub priority : ℕ
  pub unit : Option String
  pub identifier : Option String
  pub pid : Option ℕ
  pub hostname : Option String
  pub message : String

-- A frame of the journal's tail: an entry, with `type` and `err` in case of an error.
pub record TailFrame : Type 0 where
  pub type : Option String
  pub err : Option String
  pub entry : LogEntry

abbrev line_of : LogFrame → Option String
line_of f = if f.type is "line" then f.line else none

abbrev has_type : String → Option String → Bool
has_type t none = false
has_type t (some u) = u is t

-- Container lines, with `stdout` where the frame names no stream.
abbrev with_stream : LogFrame → Option DisplayLine
with_stream f =
    Option.map (λ l. record { stream = or_default f.stream "stdout"; line = l }) (line_of f)

unfoldable pub service_feed : (String → Option LogFrame) → Feed LogFrame String
service_feed parse = record {
  parse = parse;
  is_error = λ f. f.type is "error";
  err = λ f. f.err;
  fallback = "log stream error";
  item = line_of;
  resets = false;
}

unfoldable pub container_feed : (String → Option LogFrame) → Feed LogFrame DisplayLine
container_feed parse = record {
  parse = parse;
  is_error = λ f. f.type is "error";
  err = λ f. f.err;
  fallback = "log stream error";
  item = with_stream;
  resets = false;
}

unfoldable pub pod_feed : (String → Option LogFrame) → Feed LogFrame LogLine
pod_feed parse = record {
  parse = parse;
  is_error = λ f. f.type is "error";
  err = λ f. f.err;
  fallback = "log stream error";
  item = λ f. Option.map (λ l. record { line = l }) (line_of f);
  resets = true;
}

unfoldable pub docker_feed : (String → Option LogFrame) → Feed LogFrame DisplayLine
docker_feed parse = record {
  parse = parse;
  is_error = λ f. f.type is "error";
  err = λ f. f.err;
  fallback = "log stream error";
  item = with_stream;
  resets = true;
}

-- Every frame of the journal's tail that is no error is an entry.
unfoldable pub journal_feed : (String → Option TailFrame) → Feed TailFrame LogEntry
journal_feed parse = record {
  parse = parse;
  is_error = λ f. has_type "error" f.type;
  err = λ f. f.err;
  fallback = "tail error";
  item = λ f. some f.entry;
  resets = true;
}

-- `filtered` of `DockerLogStream`: `lower` is `toLowerCase`, `includes` the test for a substring.
unfoldable pub filtered :
    (String → String) → (String → String → Bool) → String → List DisplayLine → List DisplayLine
filtered lower includes search lines =
    if search is "" then lines else keep (λ l. includes (lower l.line) (lower search)) lines
