-- ===== src/Queries.antt =====
-- The hooks of web/src/lib: k8s.ts, services.ts, containers.ts, network.ts, system.ts, updates.ts,
-- settings.ts, logs.ts and auth.ts. Each query is a constructor with the arguments of its hook, and has
-- the key that it is cached under and the path that it is fetched from; each mutation has the request
-- that it sends and the keys that it invalidates.
pub mod Types
pub mod K8sTypes
pub mod Encoding
pub mod Paths
pub mod Mutations
pub mod Cache
pub mod Keys
use control_room.Base.{
  String, Bool, true, false, not, ◌&&◌, List, [], ◌∷◌, ◌++◌, Option, none, some, ◌is◌, ◌<>◌,
  if◌then◌else◌, or_default, is_some, after_prefix,
}
use control_room.Api.Types.{Json, Fields, str, num, bool, obj, end, field}
use control_room.Queries.Types.{
  Number, SystemOverview, SystemCapabilities, ServiceUnit, ServiceUnitDetail, ServicesQueryArgs,
  ContainerSummary, ContainerDetail, NetworkInterface, UfwStatus, AddRuleSpec, UpdatesListResponse,
  SettingsResponse, LogQuery, MeUser,
}
use control_room.Queries.K8sTypes.{
  K8sNode, K8sNodeDetail, K8sNamespace, K8sWorkload, K8sWorkloadDetail, K8sPod, K8sPodDetail,
  K8sService, K8sServiceDetail, K8sConfigMap, K8sConfigMapDetail, K8sSecret, K8sSecretDetail,
}
use control_room.Queries.Encoding.{encode, form_encode}
use control_room.Logs.Feeds.{LogEntry}
use control_room.Manifest.{K8sManifest}

-- `none` is `null`: nothing is selected.
abbrev pub Name : Type 0
Name = Option String

pub data Query : Type 0 where
  me setup_status capabilities system_overview : Query
  services : ServicesQueryArgs → Query
  service_detail : Name → Query
  containers : Query
  container_detail : Name → Query
  interfaces firewall updates_list settings : Query
  logs : LogQuery → Query
  k8s_nodes k8s_namespaces : Query
  k8s_workloads k8s_pods k8s_services k8s_configmaps k8s_secrets : String → Query
  k8s_node_detail : Name → Query
  k8s_workload_detail : Name → Name → Name → Query
  k8s_pod_detail k8s_service_detail k8s_configmap_detail k8s_secret_detail : Name → Name → Query
  k8s_manifest : String → String → String → Query

-- One element of a query key. An object counts by its fields.
pub data Part : Type 0 where
  text : String → Part
  null : Part
  service_args : ServicesQueryArgs → Part
  log_query : LogQuery → Part

abbrev pub Key : Type 0
Key = List Part

abbrev pub name_part : Name → Part
name_part none = null
name_part (some s) = text s

-- `['k8s', kind, …]`
abbrev pub k8s_key : String → Key → Key
k8s_key kind rest = text "k8s" ∷ text kind ∷ rest

-- `ME_QUERY_KEY`, `SETUP_STATUS_QUERY_KEY`, `SYSTEM_OVERVIEW_KEY`, `SERVICES_KEY`, `CONTAINERS_KEY`,
-- `INTERFACES_KEY`, `FIREWALL_KEY`, `UPDATES_LIST_KEY` and `SETTINGS_KEY`
abbrev pub me_key : Key
me_key = text "me" ∷ []

abbrev pub setup_status_key : Key
setup_status_key = text "setup-status" ∷ []

abbrev pub overview_key : Key
overview_key = text "system" ∷ text "overview" ∷ []

abbrev pub services_key : Key
services_key = text "services" ∷ []

abbrev pub containers_key : Key
containers_key = text "containers" ∷ []

abbrev pub interfaces_key : Key
interfaces_key = text "network" ∷ text "interfaces" ∷ []

abbrev pub firewall_key : Key
firewall_key = text "network" ∷ text "firewall" ∷ []

abbrev pub updates_list_key : Key
updates_list_key = text "updates" ∷ text "list" ∷ []

abbrev pub settings_key : Key
settings_key = text "settings" ∷ []

unfoldable pub key : Query → Key
key me = me_key
key setup_status = setup_status_key
key capabilities = text "system" ∷ text "capabilities" ∷ []
key system_overview = overview_key
key (services args) = services_key ++ service_args args ∷ []
key (service_detail name) = text "services" ∷ text "detail" ∷ name_part name ∷ []
key containers = containers_key
key (container_detail id) = text "containers" ∷ text "detail" ∷ name_part id ∷ []
key interfaces = interfaces_key
key firewall = firewall_key
key updates_list = updates_list_key
key settings = settings_key
key (logs q) = text "logs" ∷ log_query q ∷ []
key k8s_nodes = k8s_key "nodes" []
key k8s_namespaces = k8s_key "namespaces" []
key (k8s_workloads ns) = k8s_key "workloads" (text ns ∷ [])
key (k8s_pods ns) = k8s_key "pods" (text ns ∷ [])
key (k8s_services ns) = k8s_key "services" (text ns ∷ [])
key (k8s_configmaps ns) = k8s_key "configmaps" (text ns ∷ [])
key (k8s_secrets ns) = k8s_key "secrets" (text ns ∷ [])
key (k8s_node_detail name) = k8s_key "nodes" (name_part name ∷ text "detail" ∷ [])
key (k8s_workload_detail ns kind name) =
    k8s_key "workloads" (name_part ns ∷ name_part kind ∷ name_part name ∷ text "detail" ∷ [])
key (k8s_pod_detail ns name) = k8s_key "pods" (name_part ns ∷ name_part name ∷ text "detail" ∷ [])
key (k8s_service_detail ns name) =
    k8s_key "services" (name_part ns ∷ name_part name ∷ text "detail" ∷ [])
key (k8s_configmap_detail ns name) =
    k8s_key "configmap" (text "detail" ∷ name_part ns ∷ name_part name ∷ [])
key (k8s_secret_detail ns name) =
    k8s_key "secret" (text "detail" ∷ name_part ns ∷ name_part name ∷ [])
key (k8s_manifest kind ns name) = k8s_key "manifest" (text kind ∷ text ns ∷ text name ∷ [])

-- `!!name`
abbrev pub is_truthy : Name → Bool
is_truthy none = false
is_truthy (some s) = not (s is "")

-- `useLogs` has a flag of its caller in addition.
unfoldable pub is_enabled : Query → Bool
is_enabled (service_detail name) = is_truthy name
is_enabled (container_detail id) = is_truthy id
is_enabled (k8s_node_detail name) = is_truthy name
is_enabled (k8s_workload_detail ns kind name) = is_truthy ns && is_truthy kind && is_truthy name
is_enabled (k8s_pod_detail ns name) = is_truthy ns && is_truthy name
is_enabled (k8s_service_detail ns name) = is_truthy ns && is_truthy name
is_enabled (k8s_configmap_detail ns name) = is_truthy ns && is_truthy name
is_enabled (k8s_secret_detail ns name) = is_truthy ns && is_truthy name
is_enabled (k8s_manifest kind ns name) = not (kind is "") && not (ns is "") && not (name is "")
is_enabled _ = true

-- What the template of a URL makes of a name; `null` appears only where the query is not enabled.
abbrev pub shown : Name → String
shown n = or_default n "null"

-- `namespace ? `?namespace=${encodeURIComponent(namespace)}` : ''`
unfoldable pub in_namespace : String → String → String
in_namespace path ns = if ns is "" then path else path <> "?namespace=" <> encode ns

-- `params.set(name, value)` where the value is truthy, behind the parameters so far.
unfoldable pub add_param : String → Option String → String → String
add_param name none so_far = so_far
add_param name (some v) so_far =
    if v is ""
    then so_far
    else (if so_far is "" then "" else so_far <> "&") <> name <> "=" <> form_encode v

-- `?${qs}`, if there is a parameter.
abbrev pub query_string : String → String
query_string qs = if qs is "" then "" else "?" <> qs

-- `q.priority >= 0` and `q.n`, of numbers as texts.
abbrev pub non_negative : Option Number → Option Number
non_negative none = none
non_negative (some n) = if is_some (after_prefix "-" n) then none else some n

abbrev pub non_zero : Option Number → Option Number
non_zero none = none
non_zero (some n) = if n is "0" then none else some n

-- `toParams` of web/src/lib/logs.ts
unfoldable pub to_params : LogQuery → String
unfolding add_param
to_params q =
    let with_unit = add_param "unit" q.unit "" in
    let with_priority = add_param "priority" (non_negative q.priority) with_unit in
    let with_since = add_param "since" q.since with_priority in
    let with_until = add_param "until" q.until with_since in
    let with_q = add_param "q" q.q with_until in query_string (add_param "n" (non_zero q.n) with_q)

-- The parameters of `useServices`
unfoldable pub service_params : ServicesQueryArgs → String
unfolding add_param
service_params a =
    query_string (add_param "state" a.state (add_param "type" a.type (add_param "q" a.search "")))
