-- ===== src/Services/Page.antt =====
-- web/src/routes/Services.tsx with the sheet that it opens: what the page asks for, and what it sends. The
-- tabs and the list are rendered only while systemd is available; the sheet always.
use control_room.Base.{
  String, Bool, true, false, List, [], ◌∷◌, Option, none, some, ◌==◌, if◌then◌else◌, ◌≡◌, refl,
  arith,
}
use control_room.Api.Types.{Thrown, api_error}
use control_room.Queries.{Query, services, service_detail, key}
use control_room.Queries.Types.{ServiceUnit}
use control_room.Queries.Mutations.{Mutation, service_action, invalidates}
use control_room.Queries.Cache.{Cache, covers, invalidate, succeed}
use control_room.Services.{Action, args_of, select, word_of}

pub record Page : Type 0 where
  pub type : String
  pub search : String
  pub open_unit : Option String
  pub error : Option Thrown
  -- what was sent, the last one first
  pub sent : List Mutation

-- `act` is an entry of the menu of a unit, with how the user answers a question; `settled` the error, or
-- none, with which the list of the units settles.
pub data Event : Type 0 where
  choose_type type_search : String → Event
  press : ServiceUnit → Event
  act : ServiceUnit → Action → (String → Bool) → Event
  close : Event
  settled : Option Thrown → Event

abbrev pub open_page : Page
open_page = record { type = "service"; search = ""; open_unit = none; error = none; sent = [] }

-- `services.error instanceof ApiError && services.error.status === 503`
unfoldable pub is_unavailable : Option Thrown → Bool
is_unavailable (some (api_error e)) = e.status == 503
is_unavailable _ = false

-- `action.mutate(…)`, if the question is answered with yes.
unfoldable pub with_sent : Option Mutation → Page → Page
with_sent none s = s
with_sent (some m) s = record s { sent = m ∷ s.sent }

unfoldable pub step : Event → Page → Page
unfolding is_unavailable with_sent
step (choose_type t) s = if is_unavailable s.error then s else record s { type = t }
step (type_search t) s = if is_unavailable s.error then s else record s { search = t }
step (press u) s = if is_unavailable s.error then s else record s { open_unit = some u.name }
step (act u a says_yes) s = if is_unavailable s.error then s else with_sent (select says_yes a u) s
step close s = record s { open_unit = none }
step (settled e) s = record s { error = e }

unfoldable pub run : List Event → Page → Page
run [] s = s
run (e ∷ es) s = run es (step e s)

abbrev pub list_query : Page → Query
list_query s = services (args_of s.type s.search)

-- `useServiceDetail(open ? unit : null)`
abbrev pub sheet_query : Page → Query
sheet_query s = service_detail s.open_unit

select-action :
    (says_yes : String → Bool) (a : Action) (u : ServiceUnit) (m : Mutation)
    → select says_yes a u ≡ some m
    → m ≡ service_action u.name (word_of a)
unfolding select
select-action says_yes a u m h = ground (arith, h)

succeed-services :
    (name action : String) (s : Page) (c : Cache)
    → let after = succeed (service_action name action) c in
      ((after (list_query s)).is_stale ≡ true) × ((after (sheet_query s)).is_stale ≡ true)
unfolding succeed invalidate covers key invalidates
succeed-services name action s c = (refl, refl)

-- An entry of a unit's menu that is not called off sends the action for this unit. When it has succeeded,
-- the list that the page then shows and the sheet that is then open are fetched again, whatever tab, text
-- and unit were chosen meanwhile.
pub acted_refreshes :
    (u : ServiceUnit) (a : Action) (says_yes : String → Bool) (m : Mutation) (s : Page)
    (es : List Event) (c : Cache)
    → is_unavailable s.error ≡ false
    → select says_yes a u ≡ some m
    → let sent = step (act u a says_yes) s in
      let later = run es sent in
      let after = succeed m c in
      (sent.sent ≡ service_action u.name (word_of a) ∷ s.sent)
      × ((after (list_query later)).is_stale ≡ true)
      × ((after (sheet_query later)).is_stale ≡ true)
unfolding step with_sent
acted_refreshes u a says_yes m s es c ok h =
    let e = select-action says_yes a u m h in
    let later = run es (step (act u a says_yes) s) in
    let fresh = succeed-services u.name (word_of a) later c in
    (rw (ok, h, e) refl, rw e fresh.0, rw e fresh.1)
