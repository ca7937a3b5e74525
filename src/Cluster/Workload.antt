-- ===== src/Cluster/Workload.antt =====
-- web/src/components/k8s/WorkloadDetail.tsx: the dialogs that restart and scale a workload. `to_number`
-- is JavaScript's `Number(text)`, with the number given by its text.
pub mod Scaling
use control_room.Base.{
  String, Bool, true, false, not, ◌&&◌, ◌||◌, List, [], ◌∷◌, Option, none, some, ◌is◌,
  if◌then◌else◌,
}
use control_room.Queries.Types.{Number}
use control_room.Queries.K8sTypes.{K8sWorkloadDetail}
use control_room.Queries.Mutations.{Mutation, restart_workload, scale_workload}

-- The workload that the page has selected, and the sheet's state. In `sent` is what was sent, the last
-- one first.
pub record View : Type 0 where
  pub namespace : String
  pub kind : String
  pub name : String
  pub detail : Option K8sWorkloadDetail
  pub restart_open : Bool
  pub scale_open : Bool
  pub scale_replicas : Number
  pub editor_open : Bool
  pub restarting : Bool
  pub scaling : Bool
  pub sent : List Mutation

-- `…_dialog` is what a dialog itself reports of being opened and closed.
pub data Event : Type 0 where
  select : String → String → String → Event
  loaded : Option K8sWorkloadDetail → Event
  press_restart press_scale press_edit editor_closed : Event
  restart_dialog scale_dialog : Bool → Event
  type_replicas : String → Event
  confirm_restart confirm_scale : Event
  restart_settled scale_settled : Bool → Event

unfoldable pub can_scale : Option K8sWorkloadDetail → Bool
can_scale none = false
can_scale (some d) = d.workload.kind is "Deployment" || d.workload.kind is "StatefulSet"

-- `w?.ready.desired ?? 0`
unfoldable pub desired : Option K8sWorkloadDetail → Number
desired none = "0"
desired (some d) = d.workload.ready.desired

-- The first test of both handlers: each name is a text that is not empty.
unfoldable pub is_selected : View → Bool
is_selected s = not (s.namespace is "" || s.kind is "" || s.name is "")

-- `handleRestartConfirm`, whose button is disabled while a call is pending.
unfoldable pub on_restart : View → View
unfolding is_selected
on_restart s =
    if is_selected s && s.restart_open && not s.restarting
    then record s { restarting = true; sent = restart_workload s.namespace s.kind s.name ∷ s.sent }
    else s

-- `handleScaleConfirm`, likewise.
unfoldable pub on_scale : View → View
unfolding is_selected
on_scale s =
    if is_selected s && s.scale_open && not s.scaling
    then record s {
      scaling = true;
      sent = scale_workload s.namespace s.kind s.name s.scale_replicas ∷ s.sent;
    }
    else s

module _ (to_number : String → Number) where
  unfoldable pub step : Event → View → View
  unfolding can_scale desired on_restart on_scale
  step (select ns k n) s = record s { namespace = ns; kind = k; name = n }
  step (loaded d) s = record s { detail = d }
  step press_restart s = record s { restart_open = true }
  step press_scale s =
      if can_scale s.detail
      then record s { scale_replicas = desired s.detail; scale_open = true }
      else s
  step press_edit s = record s { editor_open = true }
  step editor_closed s = record s { editor_open = false }
  step (restart_dialog b) s = record s { restart_open = b }
  step (scale_dialog b) s = record s { scale_open = b }
  step (type_replicas t) s = if s.scale_open then record s { scale_replicas = to_number t } else s
  step confirm_restart s = on_restart s
  step confirm_scale s = on_scale s
  step (restart_settled true) s =
      if s.restarting then record s { restarting = false; restart_open = false } else s
  step (restart_settled false) s = record s { restarting = false }
  step (scale_settled true) s =
      if s.scaling then record s { scaling = false; scale_open = false } else s
  step (scale_settled false) s = record s { scaling = false }

  unfoldable pub run : List Event → View → View
  run [] s = s
  run (e ∷ es) s = run es (step e s)
