-- ===== src/Logs/Journal.antt =====
-- `JournalView` of web/src/routes/Logs.tsx: the form that makes the query of the journal, and how an
-- entry is shown. `print` is `String(n)`.
use Prim.Native.String.{[], ◌∷◌}
use control_room.Base.{
  ℕ, zero, suc, String, code, Bool, false, not, ◌==◌, leb, List, Option, none, some, ◌is◌,
  if◌then◌else◌, or_default,
}
use control_room.Queries.Types.{Number, LogQuery}
use control_room.Logs.Feeds.{LogEntry}

pub data Source : Type 0 where
  journal containers : Source

-- `SINCE_OPTIONS`, as labels with their values.
abbrev pub since_options : List (String × String)
since_options =
    List.◌∷◌ ("Last 15m", "-15min")
      (List.◌∷◌ ("Last hour", "-1h")
        (List.◌∷◌ ("Last 24h", "-1d") (List.◌∷◌ ("Last 7d", "-7d") List.[])))

-- The form; a priority of -1 is every priority.
pub record Form : Type 0 where
  pub source : Source
  pub unit : String
  pub search_text : String
  pub since : String
  pub priority : Number
  pub live : Bool

abbrev pub open_form : Form
open_form = record {
  source = journal;
  unit = "";
  search_text = "";
  since = "-15min";
  priority = "-1";
  live = false;
}

pub data Event : Type 0 where
  choose_source : Source → Event
  type_unit type_search choose_since : String → Event
  choose_priority : Number → Event
  press_live : Bool → Event

-- Choosing the other source: the journal's form is opened anew when it is shown again.
unfoldable pub switch : Source → Form → Form
switch journal s = elim s.source [ journal ↦ s | containers ↦ open_form ]
switch containers s = elim s.source [
  | journal ↦ record open_form { source = containers }
  | containers ↦ s
]

-- The button of the live tail is disabled where the journal is unavailable.
unfoldable pub step : Event → Form → Form
unfolding switch
step (choose_source c) s = switch c s
step (type_unit t) s = record s { unit = t }
step (type_search t) s = record s { search_text = t }
step (choose_since t) s = record s { since = t }
step (choose_priority p) s = record s { priority = p }
step (press_live unavailable) s = if unavailable then s else record s { live = not s.live }

-- `text || undefined`
abbrev pub filled : String → Option String
filled t = if t is "" then none else some t

-- `query`
unfoldable pub query_of : Form → LogQuery
query_of s = record {
  unit = filled s.unit;
  priority = some s.priority;
  since = some s.since;
  until = none;
  q = filled s.search_text;
  n = some "200";
}

unfoldable pub priority_color : ℕ → String
priority_color p =
    if leb p 3
    then "text-destructive"
    else if p == 4
    then "text-amber-500"
    else if p == 5
    then "text-sky-400"
    else "text-foreground"

-- The names of the levels, from 0.
abbrev pub level_names : List String
level_names = List.◌∷◌ "emerg" (
    List.◌∷◌ "alert" (
      List.◌∷◌ "crit" (
        List.◌∷◌ "err"
          (List.◌∷◌ "warn" (List.◌∷◌ "notice" (List.◌∷◌ "info" (List.◌∷◌ "debug" List.[])))))))

-- `xs[n] ?? d`
unfoldable pub at_or : {A : Type 0} → List A → ℕ → A → A
at_or List.[] n d = d
at_or (List.◌∷◌ x xs) zero d = x
at_or (List.◌∷◌ x xs) (suc n) d = at_or xs n d

unfoldable pub priority_label : (ℕ → String) → ℕ → String
unfolding at_or
priority_label print p = at_or level_names p (print p)

-- `s.slice(s.indexOf('T') + 1)`, if there is a T.
unfoldable pub behind_t : String → Option String
behind_t [] = none
behind_t (c ∷ s) = let rest = behind_t s in if code c == 84 then some s else rest

-- The first characters of a text in ASCII.
unfoldable pub first_chars : ℕ → String → String
first_chars zero s = ""
first_chars (suc n) [] = ""
first_chars (suc n) (c ∷ s) = c ∷ first_chars n s

unfoldable pub format_timestamp : String → String
unfolding behind_t first_chars
format_timestamp s = elim (behind_t s) [ none ↦ s | some t ↦ first_chars 8 t ]

-- What a row shows beside the message: the unit, else the identifier, else nothing.
unfoldable pub origin_of : LogEntry → String
origin_of e = or_default e.unit (or_default e.identifier "")
