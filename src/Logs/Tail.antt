-- ===== src/Logs/Tail.antt =====
-- `LiveStream` of web/src/routes/Logs.tsx under the form of `JournalView`: one socket for each query that
-- is followed, closed and opened anew by the effect when the query changes. A socket that the server or
-- the network ends stays closed until then.
pub mod Laws
use control_room.Base.{
  ℕ, suc, ◌+◌, String, Bool, true, false, not, ◌&&◌, List, [], ◌∷◌, Option, none, some, ◌is◌,
  if◌then◌else◌, ◌≡◌, refl, arith, ap, ◌∙◌, eq_iff, eq_refl, Bool-cases, inl, inr,
}
use control_room.Queries.Types.{LogQuery}
use control_room.Logs
use control_room.Logs.{View, message, socket_error, reopen, empty_view}
use control_room.Logs.Feeds.{TailFrame, LogEntry, journal_feed}
use control_room.Logs.Journal
use control_room.Logs.Journal.{Source, journal, containers, Form, open_form, query_of, filled}

-- `socket` is the query of the effect's socket, and `is_open` says whether this has not been closed yet;
-- `opened` and `closed` count sockets. `view` is what `LiveStream` shows while it is rendered.
pub record Tail : Type 0 where
  pub form : Form
  pub socket : Option LogQuery
  pub is_open : Bool
  pub opened : ℕ
  pub closed : ℕ
  pub view : View LogEntry

-- `broken` is an error of the socket and `ended` a close by the server: either ends the socket. A closed
-- socket delivers nothing, so these and a frame are of the socket in use while it is open.
pub data Event : Type 0 where
  change : Journal.Event → Event
  frame : String → Event
  broken ended : Event

abbrev pub is_journal : Source → Bool
is_journal journal = true
is_journal containers = false

-- Whether `LiveStream` is rendered.
abbrev pub is_tailing : Form → Bool
is_tailing f = is_journal f.source && f.live

-- Whether `useMemo` keeps the query: its dependencies are the same.
unfoldable pub same_query : Form → Form → Bool
same_query f g =
    f.unit is g.unit
    && f.search_text is g.search_text
    && f.since is g.since
    && f.priority is g.priority

-- The socket is closed, by the cleanup or from outside.
unfoldable pub close : Tail → Tail
close t = if t.is_open then record t { is_open = false; closed = suc t.closed } else t

-- A run of the effect for a form, with what it makes of the view.
unfoldable pub open_socket : (View LogEntry → View LogEntry) → Form → Tail → Tail
open_socket emptied f t = record t {
  form = f;
  socket = some (query_of f);
  is_open = true;
  opened = suc t.opened;
  view = emptied t.view;
}

-- The cleanup where `LiveStream` is removed.
unfoldable pub unmount : Form → Tail → Tail
unfolding close
unmount f t = record (close t) { form = f; socket = none; view = empty_view }

abbrev pub open_tail : Tail
open_tail = record {
  form = open_form;
  socket = none;
  is_open = false;
  opened = 0;
  closed = 0;
  view = empty_view;
}

-- There is a socket exactly while the form is tailing, for the form's query; of all sockets that were
-- opened only this one can be open still.
pub record Follows (t : Tail) : Type 0 where
  pub to_form : t.socket ≡ (if is_tailing t.form then some (query_of t.form) else none)
  pub one_open : t.opened ≡ t.closed + (if t.is_open then 1 else 0)
  pub open_tailing : t.is_open ≡ true → is_tailing t.form ≡ true

module _ (parse : String → Option TailFrame) where
  abbrev pub take : Logs.Event → View LogEntry → View LogEntry
  take e v = Logs.step (journal_feed parse) e v

  -- Rendering after the form has changed, for whether it was tailing, is tailing, and has kept its query.
  unfoldable pub render : Bool → Bool → Bool → Form → Tail → Tail
  unfolding open_socket close unmount
  render false false kept f t = record t { form = f }
  render false true kept f t = open_socket (λ v. empty_view) f t
  render true false kept f t = unmount f t
  render true true true f t = record t { form = f }
  render true true false f t = open_socket (take reopen) f (close t)

  unfoldable pub step : Event → Tail → Tail
  unfolding render same_query close
  step (change e) t =
      let f = Journal.step e t.form in
      render (is_tailing t.form) (is_tailing f) (same_query t.form f) f t
  step (frame text) t = if t.is_open then record t { view = take (message text) t.view } else t
  step broken t = if t.is_open then record (close t) { view = take socket_error t.view } else t
  step ended t = close t

  unfoldable pub run : List Event → Tail → Tail
  run [] t = t
  run (e ∷ es) t = run es (step e t)
