-- ===== src/Cluster/Pod.antt =====
-- web/src/components/k8s/PodDetail.tsx: the container whose logs are shown, the shell, and the dialog
-- that deletes the pod.
pub mod Laws
use control_room.Base.{
  String, Bool, true, false, not, ◌&&◌, ◌||◌, List, [], ◌∷◌, Option, none, some, ◌is◌,
  if◌then◌else◌, is_some,
}
use control_room.Queries.K8sTypes.{K8sContainerStatus, K8sPodDetail}
use control_room.Queries.Mutations.{Mutation, delete_pod}

-- `containers.find((c) => c.name === name)?.name`
unfoldable pub find_name : String → List K8sContainerStatus → Option String
find_name name [] = none
find_name name (c ∷ cs) = if c.name is name then some c.name else find_name name cs

-- `containers[0]?.name`
unfoldable pub first_name : List K8sContainerStatus → Option String
first_name [] = none
first_name (c ∷ cs) = some c.name

-- `a || b`: an empty text is falsy.
unfoldable pub or_else : Option String → Option String → Option String
or_else none o = o
or_else (some s) o = if s is "" then o else some s

-- `activeContainer && containers.find(…)?.name`
unfoldable pub active_in : Option String → List K8sContainerStatus → Option String
active_in none cs = none
active_in (some a) cs = if a is "" then none else find_name a cs

unfoldable pub resolved_container : Option String → List K8sContainerStatus → Option String
resolved_container active cs = or_else (active_in active cs) (or_else (first_name cs) none)

-- The sheet, with the pod that the page has selected. In `sent` is what was sent, the last one first.
pub record View : Type 0 where
  pub namespace : Option String
  pub name : Option String
  pub is_open : Bool
  pub detail : Option K8sPodDetail
  pub active_container : Option String
  pub exec_container : Option String
  pub delete_open : Bool
  pub force : Bool
  pub is_pending : Bool
  pub is_error : Bool
  pub sent : List Mutation

-- `select` is the page's choice of a pod, which opens the sheet; `close` and `dialog` are what the sheet
-- reports of being closed, and the dialog of being opened and closed. A closed sheet has no pod.
pub data Event : Type 0 where
  select : String → String → Event
  close : Event
  dialog : Bool → Event
  loaded : Option K8sPodDetail → Event
  press_container press_exec : String → Event
  exec_closed press_delete : Event
  tick_force : Bool → Event
  confirm succeeded failed : Event

-- `data?.containers ?? []`
unfoldable pub containers : Option K8sPodDetail → List K8sContainerStatus
containers none = []
containers (some d) = d.containers

-- The container whose logs the sheet shows.
abbrev pub shown : View → Option String
unfolding resolved_container
shown s = resolved_container s.active_container (containers s.detail)

-- `handleDeleteConfirm`, whose button is disabled while a call is pending.
unfoldable pub on_confirm : Option String → Option String → View → View
on_confirm (some ns) (some n) s =
    if ns is "" || n is "" || s.is_pending || not s.delete_open
    then s
    else record s { is_pending = true; is_error = false; sent = delete_pod ns n s.force ∷ s.sent }
on_confirm ns n s = s

-- What the page does when the sheet is closed.
abbrev pub closed : View → View
closed s = record s { namespace = none; name = none; is_open = false }

unfoldable pub step : Event → View → View
unfolding on_confirm
step (select ns n) s = record s { namespace = some ns; name = some n; is_open = true }
step close s = closed s
step (dialog b) s = record s { delete_open = b }
step (loaded d) s = record s { detail = d }
step (press_container c) s = record s { active_container = some c }
step (press_exec c) s = record s { exec_container = some c }
step exec_closed s = record s { exec_container = none }
step press_delete s = record s { delete_open = true }
step (tick_force b) s = if s.delete_open then record s { force = b } else s
step confirm s = on_confirm s.namespace s.name s
step succeeded s =
    if s.is_pending then closed (record s { is_pending = false; delete_open = false }) else s
step failed s = if s.is_pending then record s { is_pending = false; is_error = true } else s

unfoldable pub run : List Event → View → View
run [] s = s
run (e ∷ es) s = run es (step e s)
