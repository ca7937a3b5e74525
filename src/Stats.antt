-- ===== src/Stats.antt =====
-- web/src/lib/system.ts: `useSystemStatsWS`, the socket that pushes the system's figures and is
-- opened again with a growing delay. `A` is the type of a frame that was parsed.
pub mod Laws
use control_room.Base.{
  ℕ, suc, ◌+◌, ◌*◌, ◌^◌, min, Bool, true, false, Option, none, some, List, [], ◌∷◌, if◌then◌else◌,
  is_some,
}

-- The state that the browser keeps of a socket; `absent` before there is one.
pub data Socket : Type 0 where
  absent connecting live closing closed : Socket

pub record Link (A : Type 0) : Type 0 where
  pub stopped : Bool
  pub attempts : ℕ
  pub socket : Socket
  -- the pending timer, by its delay in milliseconds
  pub timer : Option ℕ
  -- how many sockets were opened
  pub opened : ℕ
  -- the cached figures
  pub overview : Option A

pub data Event (A : Type 0) : Type 0 where
  on_open on_close on_error timer_fires cleanup : Event A
  -- `none` where `JSON.parse` throws
  on_message : Option A → Event A

-- `Math.min(30_000, 500 * 2 ** Math.min(attempts, 6))`
unfoldable pub delay : ℕ → ℕ
delay attempts = min 30_000 (500 * 2 ^ min attempts 6)

-- `socket.close()`: the browser reports the end by a later close event.
abbrev pub close_socket : Socket → Socket
close_socket connecting = closing
close_socket live = closing
close_socket s = s

module _ {A : Type 0} where
  unfoldable pub connect : Link A → Link A
  connect l = if l.stopped then l else record l { socket = connecting; opened = suc l.opened }

  abbrev before_connect : Link A
  before_connect = record {
    stopped = false;
    attempts = 0;
    socket = absent;
    timer = none;
    opened = 0;
    overview = none;
  }

  unfoldable pub init : Link A
  unfolding connect
  init = connect before_connect

  -- `socket.onclose`
  after_close : Link A → Link A
  after_close l = if l.stopped then record l { socket = closed } else record l {
    socket = closed;
    attempts = suc l.attempts;
    timer = some (delay (suc l.attempts));
  }

  opened_now : Socket → Link A → Link A
  opened_now connecting l = record l { socket = live; attempts = 0 }
  opened_now _ l = l

  closed_now : Socket → Link A → Link A
  unfolding after_close
  closed_now connecting l = after_close l
  closed_now live l = after_close l
  closed_now closing l = after_close l
  closed_now _ l = l

  receive : Socket → Option A → Link A → Link A
  receive live (some figures) l = record l { overview = some figures }
  receive _ _ l = l

  fire : Option ℕ → Link A → Link A
  unfolding connect
  fire none l = l
  fire (some d) l = connect (record l { timer = none })

  -- An event that the browser cannot deliver in the socket's state changes nothing.
  unfoldable pub step : Event A → Link A → Link A
  unfolding opened_now closed_now receive fire
  step on_open l = opened_now l.socket l
  step (on_message frame) l = receive l.socket frame l
  step on_close l = closed_now l.socket l
  step on_error l = record l { socket = close_socket l.socket }
  step timer_fires l = fire l.timer l
  step cleanup l = record l { stopped = true; timer = none; socket = close_socket l.socket }

  unfoldable pub run : List (Event A) → Link A → Link A
  run [] l = l
  run (e ∷ es) l = run es (step e l)
