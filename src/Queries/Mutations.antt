-- ===== src/Queries/Mutations.antt =====
-- The mutations of web/src/lib: the request of each, and the keys that it invalidates when it succeeds.
use control_room.Base.{String, Bool, List, [], ◌∷◌, Option, none, some, ◌<>◌, if◌then◌else◌}
use control_room.Api.Types.{Json, Fields, str, num, bool, obj, end, field}
use control_room.Queries.Types.{Number, AddRuleSpec}
use control_room.Queries.Encoding.{encode}
use control_room.Queries.{
  Key, text, k8s_key, key, me_key, firewall_key, updates_list_key, containers_key, services_key,
  k8s_nodes,
}

-- `pairs` of the body of a config map are its data.
pub data Mutation : Type 0 where
  service_action : String → String → Mutation
  container_action : String → String → Mutation
  container_remove : String → Bool → Mutation
  add_rule : AddRuleSpec → Mutation
  delete_rule : Number → Mutation
  firewall_toggle : Bool → Mutation
  start_check start_apply reboot : Mutation
  change_password : String → String → Mutation
  restart_workload : String → String → String → Mutation
  scale_workload : String → String → String → Number → Mutation
  delete_pod : String → String → Bool → Mutation
  cordon_node : String → Bool → Mutation
  update_config_map : String → String → List (String × String) → Mutation
  apply_manifest : String → String → String → String → String → Bool → Mutation

pub record Call : Type 0 where
  pub method : String
  pub path : String
  pub body : Option Json

abbrev pub post : String → Call
post p = record { method = "POST"; path = p; body = none }

abbrev pub post_json : String → Fields → Call
post_json p fs = record { method = "POST"; path = p; body = some (obj fs) }

-- A field that is `undefined` is left out.
unfoldable pub optional : String → Option String → Fields → Fields
optional k none fs = fs
optional k (some v) fs = field k (str v) fs

unfoldable pub pairs : List (String × String) → Fields
pairs [] = end
pairs ((k, v) ∷ o) = field k (str v) (pairs o)

abbrev pub workload_path : (String → String) → String → String → String → String
workload_path lower ns kind name =
    "/api/k8s/workloads/" <> encode ns <> "/" <> encode (lower kind) <> "/" <> encode name

-- `useServiceAction`
abbrev pub service_call : String → String → Call
service_call name action = post ("/api/services/" <> encode name <> "/" <> action)

-- `useContainerAction` and `useContainerRemove`
abbrev pub container_call : String → String → Call
container_call id action = post ("/api/containers/" <> id <> "/" <> action)

abbrev pub remove_call : String → Bool → Call
remove_call id force = record {
  method = "DELETE";
  path = "/api/containers/" <> id <> (if force then "?force=true" else "");
  body = none;
}

-- `useAddRule`, `useDeleteRule` and `useFirewallToggle`
unfoldable pub add_rule_call : AddRuleSpec → Call
unfolding optional
add_rule_call spec = post_json "/api/network/firewall/rules" (
    field "action" (str spec.action) (
      optional "port" spec.port (
        optional "protocol" spec.protocol
          (optional "from" spec.source (optional "comment" spec.comment end)))))

abbrev pub delete_rule_call : Number → Call
delete_rule_call index = record {
  method = "DELETE";
  path = "/api/network/firewall/rules/" <> index;
  body = none;
}

abbrev pub toggle_call : Bool → Call
toggle_call enable = post ("/api/network/firewall/" <> (if enable then "enable" else "disable"))

-- `useStartCheck`, `useStartApply` and `useReboot`
abbrev pub check_call : Call
check_call = post "/api/updates/check"

abbrev pub apply_call : Call
apply_call = post "/api/updates/apply"

abbrev pub reboot_call : Call
reboot_call = post_json "/api/system/reboot" (field "confirm" (str "REBOOT") end)

-- `useChangePassword`
abbrev pub password_call : String → String → Call
password_call current new =
    post_json "/api/settings/password" (field "current" (str current) (field "new" (str new) end))

-- The request of a mutation; those of web/src/lib/k8s.ts are written out. `lower` is `toLowerCase`.
unfoldable pub call : (String → String) → Mutation → Call
unfolding pairs add_rule_call
call lower (service_action name action) = service_call name action
call lower (container_action id action) = container_call id action
call lower (container_remove id force) = remove_call id force
call lower (add_rule spec) = add_rule_call spec
call lower (delete_rule index) = delete_rule_call index
call lower (firewall_toggle enable) = toggle_call enable
call lower start_check = check_call
call lower start_apply = apply_call
call lower reboot = reboot_call
call lower (change_password current new) = password_call current new
call lower (restart_workload ns kind name) = post (workload_path lower ns kind name <> "/restart")
call lower (scale_workload ns kind name replicas) =
    post_json (workload_path lower ns kind name <> "/scale") (field "replicas" (num replicas) end)
call lower (delete_pod ns name force) = record {
  method = "DELETE";
  path =
      "/api/k8s/pods/" <> encode ns <> "/" <> encode name <> (if force then "?force=true" else "");
  body = none;
}
call lower (cordon_node name cordoned) =
    post_json ("/api/k8s/nodes/" <> encode name <> "/cordon") (field "cordoned" (bool cordoned) end)
call lower (update_config_map ns name o) = record {
  method = "PUT";
  path = "/api/k8s/configmaps/" <> encode ns <> "/" <> encode name;
  body = some (obj (field "data" (obj (pairs o)) end));
}
call lower (apply_manifest kind ns name yaml version dry_run) = post_json "/api/k8s/manifest" (
    field "yaml" (str yaml)
      (field "resource_version" (str version) (field "dry_run" (bool dry_run) end)))

-- The keys of `invalidateQueries` in `onSuccess`.
unfoldable pub invalidates : Mutation → List Key
unfolding key
invalidates (service_action name action) = services_key ∷ []
invalidates (container_action id action) = containers_key ∷ []
invalidates (container_remove id force) = containers_key ∷ []
invalidates (add_rule spec) = firewall_key ∷ []
invalidates (delete_rule index) = firewall_key ∷ []
invalidates (firewall_toggle enable) = firewall_key ∷ []
invalidates start_check = updates_list_key ∷ []
invalidates start_apply = updates_list_key ∷ []
invalidates reboot = []
invalidates (change_password current new) = me_key ∷ []
invalidates (restart_workload ns kind name) =
    k8s_key "workloads" (text ns ∷ text kind ∷ text name ∷ text "detail" ∷ [])
    ∷ k8s_key "workloads" (text ns ∷ [])
    ∷ []
invalidates (scale_workload ns kind name replicas) =
    k8s_key "workloads" (text ns ∷ text kind ∷ text name ∷ text "detail" ∷ [])
    ∷ k8s_key "workloads" (text ns ∷ [])
    ∷ []
invalidates (delete_pod ns name force) = k8s_key "pods" (text ns ∷ []) ∷ k8s_key "pods" [] ∷ []
invalidates (cordon_node name cordoned) =
    k8s_key "nodes" (text name ∷ text "detail" ∷ []) ∷ key k8s_nodes ∷ []
invalidates (update_config_map ns name o) =
    k8s_key "configmaps" (text ns ∷ [])
    ∷ k8s_key "configmap" (text "detail" ∷ text ns ∷ text name ∷ [])
    ∷ []
invalidates (apply_manifest kind ns name yaml version dry_run) =
    if dry_run
    then []
    else k8s_key "workloads" (text ns ∷ text kind ∷ text name ∷ text "detail" ∷ [])
      ∷ k8s_key "workloads" (text ns ∷ [])
      ∷ k8s_key "services" (text ns ∷ text name ∷ text "detail" ∷ [])
      ∷ k8s_key "services" (text ns ∷ [])
      ∷ k8s_key "configmap" (text "detail" ∷ text ns ∷ text name ∷ [])
      ∷ k8s_key "configmaps" (text ns ∷ [])
      ∷ []
