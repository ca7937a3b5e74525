-- ===== src/Services.antt =====
-- web/src/routes/Services.tsx: the tabs, the counts, and the menu of a unit.
pub mod Page
use control_room.Base.{
  ℕ, suc, ◌+◌, ◌≤◌, String, Bool, true, false, ◌||◌, List, [], ◌∷◌, ◌++◌, Option, none, some, ◌is◌,
  ◌<>◌, keep, length, if◌then◌else◌, ◌≡◌, refl, arith, eq_iff,
}
use control_room.Queries.Types.{ServiceUnit, ServicesQueryArgs}
use control_room.Queries.Mutations.{Mutation, service_action}

-- The keys of `TYPE_TABS`.
abbrev pub type_keys : List String
type_keys = "service" ∷ "socket" ∷ "timer" ∷ "mount" ∷ "target" ∷ []

-- What `useServices` is asked for.
unfoldable pub args_of : String → String → ServicesQueryArgs
args_of type text = record {
  search = if text is "" then none else some text;
  type = some type;
  state = none;
}

pub record Counts : Type 0 where
  pub active : ℕ
  pub failed : ℕ

-- One turn of the loop of `countByState`.
unfoldable pub count_unit : ServiceUnit → Counts → Counts
count_unit u c = record {
  active = if u.active_state is "active" then suc c.active else c.active;
  failed = if u.active_state is "failed" then suc c.failed else c.failed;
}

unfoldable pub count_from : List ServiceUnit → Counts → Counts
unfolding count_unit
count_from [] c = c
count_from (u ∷ us) c = count_from us (count_unit u c)

unfoldable pub count_by_state : List ServiceUnit → Counts
unfolding count_from
count_by_state us = count_from us (record { active = 0; failed = 0 })

pub data Action : Type 0 where
  start stop restart enable disable : Action

unfoldable pub is_active : ServiceUnit → Bool
is_active u = u.active_state is "active" || u.active_state is "activating"

-- The entries of the menu, from the top.
unfoldable pub items : ServiceUnit → List Action
unfolding is_active
items u =
    (if is_active u then stop ∷ restart ∷ [] else start ∷ restart ∷ [])
    ++ (if u.unit_file_state is "enabled" then disable ∷ [] else enable ∷ [])

-- The question of `confirm(…)`, if the entry asks one.
unfoldable pub question : Action → ServiceUnit → Option String
question start u = none
question stop u = some ("Stop " <> u.name <> "?")
question restart u = some ("Restart " <> u.name <> "?")
question enable u = none
question disable u = none

unfoldable pub word_of : Action → String
word_of start = "start"
word_of stop = "stop"
word_of restart = "restart"
word_of enable = "enable"
word_of disable = "disable"

-- Selecting an entry: `says_yes` is how the user answers a question.
unfoldable pub select : (String → Bool) → Action → ServiceUnit → Option Mutation
unfolding question word_of
select says_yes a u = elim (question a u) [
  | none ↦ some (service_action u.name (word_of a))
  | some q ↦ if says_yes q then some (service_action u.name (word_of a)) else none
]

-- The number of the units in a state.
abbrev pub number_in : String → List ServiceUnit → ℕ
number_in state us = length (keep (λ u. u.active_state is state) us)

count_from-number_in :
    (us : List ServiceUnit) (c : Counts)
    → ((count_from us c).active ≡ c.active + number_in "active" us)
      × ((count_from us c).failed ≡ c.failed + number_in "failed" us)
unfolding count_from count_unit
count_from-number_in [] c = (omega arith, omega arith)
count_from-number_in (u ∷ us) c =
    let rest = count_from-number_in us (count_unit u c) in
    (ground (arith, rest), ground (arith, rest))

exclusive : (s : String) → (s is "active") ≡ true → (s is "failed") ≡ false
exclusive s h = rw ((eq_iff s "active").0 h) refl

disjoint : (us : List ServiceUnit) → number_in "active" us + number_in "failed" us ≤ length us
disjoint [] = omega arith
disjoint (u ∷ us) = ground (arith, disjoint us, exclusive u.active_state)

-- The counts above the list are the numbers of the units that are active and that have failed, and
-- together they are at most the number of the units.
pub count_by_state_lem :
    (us : List ServiceUnit)
    → let c = count_by_state us in
      (c.active ≡ number_in "active" us)
      × (c.failed ≡ number_in "failed" us)
      × (c.active + c.failed ≤ length us)
unfolding count_by_state
count_by_state_lem us =
    let n = count_from-number_in us (record { active = 0; failed = 0 }) in
    (omega (arith, n.0), omega (arith, n.1), omega (arith, n.0, n.1, disjoint us))
