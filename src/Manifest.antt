-- ===== src/Manifest.antt =====
-- web/src/components/k8s/ManifestEditor.tsx: the YAML editor of a Kubernetes object, with
-- `useK8sManifest` and `useApplyManifest` of web/src/lib/k8s.ts. The editor itself, the confirmations
-- and the query are here; the object's kind, namespace and name stay fixed while it is open.
pub mod Laws
pub mod Versions
use control_room.Base.{
  ℕ, String, Bool, true, false, not, ◌&&◌, ◌||◌, List, [], ◌∷◌, ◌++◌, Option, none, some, ◌is◌,
  ◌==◌, if◌then◌else◌, is_some,
}

pub data ActionStatus : Type 0 where
  idle : ActionStatus
  dry_run_passed applied : List String → ActionStatus
  admission_error : String → ActionStatus
  conflict : ActionStatus
  error : String → ActionStatus

pub data Action : Type 0 where
  dry_run apply : Action

-- `gvk` of a manifest
pub record Gvk : Type 0 where
  pub group : String
  pub version : String
  pub kind : String

pub record K8sManifest : Type 0 where
  pub yaml : String
  pub resource_version : String
  pub gvk : Gvk

-- What `runApply` posts.
pub record ApplyRequest : Type 0 where
  pub yaml : String
  pub resource_version : String
  pub action : Action

-- How a post fails: an `ApiError` with its status and message, another `Error`, or anything else.
pub data ApplyFailure : Type 0 where
  api_failure : ℕ → String → ApplyFailure
  other_error : String → ApplyFailure
  no_error : ApplyFailure

-- `in_flight` is the request of the mutation while it is pending, as `runApply` captured it; `sent`
-- are all requests so far, the last one first.
pub record Editor : Type 0 where
  pub edited_yaml : String
  pub original_yaml : String
  pub resource_version : String
  pub status : ActionStatus
  pub apply_dialog_open : Bool
  pub reload_dialog_open : Bool
  pub pending_action : Option Action
  pub in_flight : Option ApplyRequest
  pub is_fetching : Bool
  pub sent : List ApplyRequest

-- `fetch_settled` has a manifest when the query's data is a new one, and `none` when the fetch failed
-- or brought the data that was there.
pub data Event : Type 0 where
  opened : Event
  fetch_settled : Option K8sManifest → Event
  typed : Option String → Event
  press_reload press_reload_conflict press_dry_run press_apply : Event
  cancel_apply confirm_apply cancel_reload confirm_reload : Event
  succeeded : String → List String → Event
  failed : ApplyFailure → Event

-- The editor while the manifest is being loaded for the first time.
abbrev pub mount : Editor
mount = record {
  edited_yaml = "";
  original_yaml = "";
  resource_version = "";
  status = idle;
  apply_dialog_open = false;
  reload_dialog_open = false;
  pending_action = none;
  in_flight = none;
  is_fetching = true;
  sent = [];
}

unfoldable pub dirty : Editor → Bool
dirty s = not (s.edited_yaml is s.original_yaml)

-- The effect on the query's data.
unfoldable pub sync : K8sManifest → Editor → Editor
sync m s = record s {
  original_yaml = m.yaml;
  edited_yaml = m.yaml;
  resource_version = m.resource_version;
  status = idle;
}

-- `handleEditorChange` clears a success when the user edits again.
unfoldable pub after_edit : ActionStatus → ActionStatus
after_edit (dry_run_passed w) = idle
after_edit (applied w) = idle
after_edit other = other

unfoldable pub trigger_reload : Editor → Editor
trigger_reload s = record s { is_fetching = true; status = idle }

-- `runApply`
unfoldable pub run_apply : Action → Editor → Editor
run_apply action s =
    let request : ApplyRequest = record {
      yaml = s.edited_yaml;
      resource_version = s.resource_version;
      action = action;
    } in
    record s { pending_action = some action; in_flight = some request; sent = request ∷ s.sent }

-- `onSuccess` of `runApply`: only an apply moves the base that edits are compared with.
unfoldable pub settled : Action → String → String → List String → Editor → Editor
settled dry_run yaml version warnings s = record s {
  pending_action = none;
  in_flight = none;
  status = dry_run_passed warnings;
}
settled apply yaml version warnings s = record s {
  pending_action = none;
  in_flight = none;
  original_yaml = yaml;
  resource_version = version;
  status = applied warnings;
}

unfoldable pub on_success : Option ApplyRequest → String → List String → Editor → Editor
unfolding settled
on_success none version warnings s = s
on_success (some r) version warnings s = settled r.action r.yaml version warnings s

unfoldable pub status_of : ApplyFailure → ActionStatus
status_of (api_failure n message) =
    if n == 409 then conflict else if n == 422 then admission_error message else error message
status_of (other_error message) = error message
status_of no_error = error "Unknown error"

-- `onError` of `runApply`
unfoldable pub on_error : Option ApplyRequest → ApplyFailure → Editor → Editor
unfolding status_of
on_error none f s = s
on_error (some r) f s = record s { pending_action = none; in_flight = none; status = status_of f }

-- The dry-run and apply buttons are enabled.
unfoldable pub can_apply : Editor → Bool
unfolding dirty
can_apply s = not (is_some s.in_flight) && dirty s && not (s.resource_version is "")

abbrev pub is_conflict : ActionStatus → Bool
is_conflict conflict = true
is_conflict _ = false

-- The reload button beside a conflict is there only while it is shown. A dialog does not keep the
-- editor behind it from changing.
unfoldable pub step : Event → Editor → Editor
unfolding dirty sync after_edit trigger_reload run_apply on_success on_error can_apply
step opened s = record s { status = idle }
step (fetch_settled none) s = record s { is_fetching = false }
step (fetch_settled (some m)) s = sync m (record s { is_fetching = false })
step (typed none) s = record s { edited_yaml = ""; status = after_edit s.status }
step (typed (some y)) s = record s { edited_yaml = y; status = after_edit s.status }
step press_reload s =
    if is_some s.in_flight || s.is_fetching
    then s
    else if dirty s
    then record s { reload_dialog_open = true }
    else trigger_reload s
step press_reload_conflict s = if is_conflict s.status then trigger_reload s else s
step press_dry_run s = if can_apply s then run_apply dry_run s else s
step press_apply s = if can_apply s then record s { apply_dialog_open = true } else s
step cancel_apply s = if is_some s.in_flight then s else record s { apply_dialog_open = false }
step confirm_apply s =
    if s.apply_dialog_open && not (is_some s.in_flight)
    then run_apply apply (record s { apply_dialog_open = false })
    else s
step cancel_reload s = record s { reload_dialog_open = false }
step confirm_reload s =
    if s.reload_dialog_open then trigger_reload (record s { reload_dialog_open = false }) else s
step (succeeded version warnings) s = on_success s.in_flight version warnings s
step (failed f) s = on_error s.in_flight f s

unfoldable pub run : List Event → Editor → Editor
run [] s = s
run (e ∷ es) s = run es (step e s)
