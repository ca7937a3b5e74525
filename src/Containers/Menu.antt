-- ===== src/Containers/Menu.antt =====
-- `RowMenu` of web/src/components/containers/ContainerCard.tsx: the actions on a container.
use control_room.Base.{String, Bool, List, [], ◌∷◌, Option, none, some, ◌is◌, ◌<>◌, if◌then◌else◌}
use control_room.Queries.Types.{ContainerSummary}
use control_room.Queries.Mutations.{Mutation, container_action, container_remove}

pub data Item : Type 0 where
  start stop restart delete : Item

abbrev pub is_running : ContainerSummary → Bool
is_running c = c.state is "running"

-- The entries of the menu, from the top.
unfoldable pub items : ContainerSummary → List Item
items c = if is_running c then stop ∷ restart ∷ delete ∷ [] else start ∷ restart ∷ delete ∷ []

-- The question of `confirm(…)`, if the entry asks one.
unfoldable pub question : Item → ContainerSummary → Option String
question start c = none
question stop c = some ("Stop " <> c.name <> "?")
question restart c = some ("Restart " <> c.name <> "?")
question delete c = some ("Delete " <> c.name <> "? This cannot be undone.")

unfoldable pub mutation_of : Item → ContainerSummary → Mutation
mutation_of start c = container_action c.id "start"
mutation_of stop c = container_action c.id "stop"
mutation_of restart c = container_action c.id "restart"
mutation_of delete c = container_remove c.id (is_running c)

-- Selecting an entry: `says_yes` is how the user answers a question.
unfoldable pub select : (String → Bool) → Item → ContainerSummary → Option Mutation
unfolding question mutation_of
select says_yes item c = elim (question item c) [
  | none ↦ some (mutation_of item c)
  | some q ↦ if says_yes q then some (mutation_of item c) else none
]
