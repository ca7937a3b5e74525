-- ===== src/Network.antt =====
-- The firewall of web/src/routes/Network.tsx: the card that shows its rules, and the form that adds one.
-- An answer arrives as an event for the mutation that is pending.
pub mod Renumber
pub mod Form
use control_room.Base.{
  String, Bool, true, false, not, ◌&&◌, ◌||◌, List, [], ◌∷◌, Option, none, some, ◌is◌,
  if◌then◌else◌,
}
use control_room.Queries.Types.{Number, UfwRule, UfwStatus}
use control_room.Queries.Mutations.{Mutation, delete_rule, firewall_toggle}

-- In `sent` is what was sent, the last one first.
pub record FirewallCard : Type 0 where
  pub status : Option UfwStatus
  pub toggling : Bool
  pub sent : List Mutation

-- With an event that asks a question of `confirm(…)` comes the user's answer.
pub data Event : Type 0 where
  loaded : Option UfwStatus → Event
  press_toggle : Bool → Event
  toggle_settled : Event
  press_delete : UfwRule → Bool → Event

-- The handler of the button, which is disabled while a call is pending.
unfoldable pub on_toggle : Bool → Option UfwStatus → FirewallCard → FirewallCard
on_toggle says_yes none s = s
on_toggle says_yes (some f) s =
    let enable = not f.active in
    if s.toggling || (not enable && not says_yes)
    then s
    else record s { toggling = true; sent = firewall_toggle enable ∷ s.sent }

unfoldable pub step : Event → FirewallCard → FirewallCard
unfolding on_toggle
step (loaded f) s = record s { status = f }
step (press_toggle says_yes) s = on_toggle says_yes s.status s
step toggle_settled s = record s { toggling = false }
step (press_delete r says_yes) s =
    if says_yes then record s { sent = delete_rule r.index ∷ s.sent } else s

unfoldable pub run : List Event → FirewallCard → FirewallCard
run [] s = s
run (e ∷ es) s = run es (step e s)
