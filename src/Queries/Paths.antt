-- ===== src/Queries/Paths.antt =====
-- Where each query of web/src/lib is fetched from, how often, and what the answer is; and the paths of
-- the sockets.
use control_room.Base.{ℕ, String, Bool, List, Option, none, some, ◌<>◌, if◌then◌else◌, or_default}
use control_room.Queries.Types.{
  SystemOverview, SystemCapabilities, ServiceUnit, ServiceUnitDetail, ContainerSummary,
  ContainerDetail, NetworkInterface, UfwStatus, UpdatesListResponse, SettingsResponse, LogQuery,
  MeUser,
}
use control_room.Queries.K8sTypes.{
  K8sNode, K8sNodeDetail, K8sNamespace, K8sWorkload, K8sWorkloadDetail, K8sPod, K8sPodDetail,
  K8sService, K8sServiceDetail, K8sConfigMap, K8sConfigMapDetail, K8sSecret, K8sSecretDetail,
}
use control_room.Logs.Feeds.{LogEntry}
use control_room.Manifest.{K8sManifest}
use control_room.Queries.Encoding.{encode}
use control_room.Queries.{
  Query, me, setup_status, capabilities, system_overview, services, service_detail, containers,
  container_detail, interfaces, firewall, updates_list, settings, logs, k8s_nodes, k8s_namespaces,
  k8s_workloads, k8s_pods, k8s_services, k8s_configmaps, k8s_secrets, k8s_node_detail,
  k8s_workload_detail, k8s_pod_detail, k8s_service_detail, k8s_configmap_detail, k8s_secret_detail,
  k8s_manifest, is_enabled, shown, in_namespace, to_params, service_params,
}

-- `/api/k8s/<kind>/<namespace>/<name>`
abbrev pub k8s_object : String → Option String → Option String → String
k8s_object kind ns name =
    "/api/k8s/" <> kind <> "/" <> encode (shown ns) <> "/" <> encode (shown name)

-- `lower` is `toLowerCase`.
unfoldable pub path : (String → String) → Query → String
path lower me = "/api/auth/me"
path lower setup_status = "/api/setup/status"
path lower capabilities = "/api/system/capabilities"
path lower system_overview = "/api/system/overview"
path lower (services args) = "/api/services/" <> service_params args
path lower (service_detail name) = "/api/services/" <> encode (or_default name "")
path lower containers = "/api/containers/?all=true"
path lower (container_detail id) = "/api/containers/" <> shown id
path lower interfaces = "/api/network/interfaces"
path lower firewall = "/api/network/firewall"
path lower updates_list = "/api/updates/list"
path lower settings = "/api/settings/"
path lower (logs q) = "/api/logs/journal" <> to_params q
path lower k8s_nodes = "/api/k8s/nodes"
path lower k8s_namespaces = "/api/k8s/namespaces"
path lower (k8s_workloads ns) = in_namespace "/api/k8s/workloads" ns
path lower (k8s_pods ns) = in_namespace "/api/k8s/pods" ns
path lower (k8s_services ns) = in_namespace "/api/k8s/services" ns
path lower (k8s_configmaps ns) = in_namespace "/api/k8s/configmaps" ns
path lower (k8s_secrets ns) = in_namespace "/api/k8s/secrets" ns
path lower (k8s_node_detail name) = "/api/k8s/nodes/" <> encode (shown name)
path lower (k8s_workload_detail ns kind name) =
    "/api/k8s/workloads/"
    <> encode (shown ns)
    <> "/"
    <> encode (lower (shown kind))
    <> "/"
    <> encode (shown name)
path lower (k8s_pod_detail ns name) = k8s_object "pods" ns name
path lower (k8s_service_detail ns name) = k8s_object "services" ns name
path lower (k8s_configmap_detail ns name) = k8s_object "configmaps" ns name
path lower (k8s_secret_detail ns name) = k8s_object "secrets" ns name
path lower (k8s_manifest kind ns name) =
    "/api/k8s/manifest?kind="
    <> encode kind
    <> "&namespace="
    <> encode ns
    <> "&name="
    <> encode name

-- What a query fetches when it is enabled.
unfoldable pub fetch_path : (String → String) → Query → Option String
fetch_path lower q = if is_enabled q then some (path lower q) else none

-- The data of a query; a response with a single field is that field.
unfoldable pub Answer : Query → Type 0
Answer me = MeUser
Answer setup_status = Bool
Answer capabilities = SystemCapabilities
Answer system_overview = SystemOverview
Answer (services args) = List ServiceUnit
Answer (service_detail name) = ServiceUnitDetail
Answer containers = List ContainerSummary
Answer (container_detail id) = ContainerDetail
Answer interfaces = List NetworkInterface
Answer firewall = UfwStatus
Answer updates_list = UpdatesListResponse
Answer settings = SettingsResponse
Answer (logs q) = List LogEntry
Answer k8s_nodes = List K8sNode
Answer k8s_namespaces = List K8sNamespace
Answer (k8s_workloads ns) = List K8sWorkload
Answer (k8s_pods ns) = List K8sPod
Answer (k8s_services ns) = List K8sService
Answer (k8s_configmaps ns) = List K8sConfigMap
Answer (k8s_secrets ns) = List K8sSecret
Answer (k8s_node_detail name) = K8sNodeDetail
Answer (k8s_workload_detail ns kind name) = K8sWorkloadDetail
Answer (k8s_pod_detail ns name) = K8sPodDetail
Answer (k8s_service_detail ns name) = K8sServiceDetail
Answer (k8s_configmap_detail ns name) = K8sConfigMapDetail
Answer (k8s_secret_detail ns name) = K8sSecretDetail
Answer (k8s_manifest kind ns name) = K8sManifest

-- `refetchInterval` in milliseconds; `none` is never.
unfoldable pub refetch_interval : Query → Option ℕ
refetch_interval me = none
refetch_interval setup_status = none
refetch_interval capabilities = none
refetch_interval settings = none
refetch_interval updates_list = none
refetch_interval (logs q) = none
refetch_interval (k8s_manifest kind ns name) = none
refetch_interval (k8s_secret_detail ns name) = none
refetch_interval system_overview = some 5000
refetch_interval (services args) = some 5000
refetch_interval (service_detail name) = some 5000
refetch_interval containers = some 5000
refetch_interval (container_detail id) = some 5000
refetch_interval interfaces = some 5000
refetch_interval (k8s_secrets ns) = some 30_000
refetch_interval _ = some 10_000

-- `podLogsURL` and `podExecURL`, from the host: the second one does not encode its names.
unfoldable pub pod_logs_path : String → String → String → String
pod_logs_path ns name container =
    "/ws/k8s/pods/"
    <> encode ns
    <> "/"
    <> encode name
    <> "/logs?container="
    <> encode container
    <> "&tail=200"

unfoldable pub pod_exec_path : String → String → String
pod_exec_path ns name = "/ws/k8s/pods/" <> ns <> "/" <> name <> "/exec"

-- `tailURL`, from the host.
unfoldable pub tail_path : LogQuery → String
tail_path q = "/ws/logs/journal" <> to_params q
