-- ===== src/Badges.antt =====
-- The badges of the client: web/src/components/services/StatusBadge.tsx,
-- web/src/components/containers/StatusBadge.tsx, web/src/components/k8s/K8sStatusPill.tsx,
-- EventsTable.tsx and ConditionsTable.tsx, and those of web/src/routes/Network.tsx and
-- web/src/components/updates/JobConsole.tsx. The tables are read at the texts that a server sends, none of
-- which names a member of every JavaScript object.
use control_room.Base.{String, List, [], ◌∷◌, Option, none, some, ◌is◌, if◌then◌else◌, or_default}
use control_room.Jobs.{JobState, running, succeeded, failed, cancelled, not_found}

pub data Variant : Type 0 where
  success warn danger muted default : Variant

abbrev pub Table : Type 0
Table = List (String × Variant)

-- `TABLE[state]`
unfoldable pub at_key : String → Table → Option Variant
at_key s [] = none
at_key s ((k, v) ∷ t) = if k is s then some v else at_key s t

-- `VARIANT_BY_STATE`
abbrev pub unit_states : Table
unit_states =
    ("active", success)
    ∷ ("reloading", warn)
    ∷ ("activating", warn)
    ∷ ("deactivating", warn)
    ∷ ("failed", danger)
    ∷ ("inactive", muted)
    ∷ ("maintenance", warn)
    ∷ []

-- `VARIANT`
abbrev pub container_states : Table
container_states =
    ("running", success)
    ∷ ("restarting", warn)
    ∷ ("paused", warn)
    ∷ ("removing", warn)
    ∷ ("exited", muted)
    ∷ ("dead", danger)
    ∷ ("created", muted)
    ∷ []

abbrev pub node_status : Table
node_status = ("Ready", success) ∷ ("NotReady", danger) ∷ ("Unknown", warn) ∷ []

abbrev pub pod_status : Table
pod_status =
    ("Running", success) ∷ ("Pending", warn) ∷ ("Succeeded", muted) ∷ ("Failed", danger) ∷ []

-- `STATUS_VARIANT`
abbrev pub condition_status : Table
condition_status = ("True", success) ∷ ("False", danger) ∷ ("Unknown", muted) ∷ []

abbrev pub service_type : Table
service_type = ("ClusterIP", default) ∷ ("NodePort", warn) ∷ ("LoadBalancer", success) ∷ []

unfoldable pub unit_badge : String → Variant
unfolding at_key
unit_badge state = or_default (at_key state unit_states) default

-- There is no badge for an empty state.
unfoldable pub file_state_badge : String → Option Variant
file_state_badge state =
    if state is ""
    then none
    else some (if state is "enabled" then success else if state is "disabled" then muted else warn)

unfoldable pub container_badge : String → Variant
unfolding at_key
container_badge state = or_default (at_key state container_states) default

unfoldable pub node_pill : String → Variant
unfolding at_key
node_pill status = or_default (at_key status node_status) muted

unfoldable pub pod_pill : String → Variant
unfolding at_key
pod_pill status = or_default (at_key status pod_status) muted

unfoldable pub service_pill : String → Variant
unfolding at_key
service_pill type = or_default (at_key type service_type) default

unfoldable pub condition_badge : String → Variant
unfolding at_key
condition_badge status = or_default (at_key status condition_status) muted

unfoldable pub event_badge : String → Variant
event_badge type = if type is "Warning" then warn else muted

unfoldable pub interface_badge : String → Variant
interface_badge state = if state is "UP" then success else if state is "DOWN" then danger else muted

-- `StateBadge` of the console, with its label.
unfoldable pub job_badge : Option JobState → Variant × String
job_badge none = (muted, "—")
job_badge (some running) = (warn, "Running")
job_badge (some succeeded) = (success, "Done")
job_badge (some failed) = (danger, "failed")
job_badge (some cancelled) = (danger, "cancelled")
job_badge (some not_found) = (muted, "—")

-- The text of the console.
unfoldable pub console_text : Option JobState → String → String
console_text state output =
    if output is ""
    then elim state [
      | none ↦ "(no output)"
      | some j ↦ elim j [ running ↦ "Waiting for output…" | _ ↦ "(no output)" ]
    ]
    else output
