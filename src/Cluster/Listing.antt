-- ===== src/Cluster/Listing.antt =====
-- What the lists of web/src/components/k8s show: NodeList.tsx, WorkloadList.tsx, PodList.tsx,
-- ServiceList.tsx, ConfigMapList.tsx and SecretList.tsx. The error of a query is given by its message, and
-- `lower` is `toLowerCase`.
pub mod Shown
use control_room.Base.{
  String, Bool, true, false, List, [], ◌∷◌, Option, none, some, ◌is◌, ◌<>◌, if◌then◌else◌,
}
use control_room.Queries.K8sTypes.{
  K8sNode, K8sWorkload, K8sPod, K8sService, K8sConfigMap, K8sSecret, NodeAddress,
}
use control_room.Cluster.Lists.{
  KindGroup, nodes, workloads, pods, services, config_maps, secrets, by_kind,
}

pub data Listing (A : Type 0) : Type 0 where
  waiting : Listing A
  failed message : String → Listing A
  table : List A → Listing A

-- `error.message || …`
unfoldable pub failure : String → String → String
failure objects m = if m is "" then "Could not fetch " <> objects <> "." else m

unfoldable pub no_objects : {A : Type 0} → String → List A → String
no_objects objects [] = "No " <> objects <> " found"
no_objects objects (a ∷ list) = "No " <> objects <> " match"

unfoldable pub found : {A : Type 0} → String → List A → List A → Listing A
unfolding no_objects
found objects list [] = message (no_objects objects list)
found objects list (a ∷ kept) = table (a ∷ kept)

-- The tests of a list in their order: `kept` is what its filter keeps of `list`.
unfoldable pub listing : {A : Type 0} → String → Bool → Option String → List A → List A → Listing A
unfolding failure found
listing objects true error list kept = waiting
listing objects false (some m) list kept = failed (failure objects m)
listing objects false none list kept = found objects list kept

module _ (lower : String → String) (loading : Bool) (error : Option String) (search : String) where
  unfoldable pub node_list : List K8sNode → Listing K8sNode
  unfolding listing nodes
  node_list ns = listing "nodes" loading error ns (nodes lower search ns)

  unfoldable pub pod_list : List K8sPod → Listing K8sPod
  unfolding listing pods
  pod_list ps = listing "pods" loading error ps (pods lower search ps)

  unfoldable pub service_list : List K8sService → Listing K8sService
  unfolding listing services
  service_list ss = listing "services" loading error ss (services lower search ss)

  unfoldable pub config_map_list : List K8sConfigMap → Listing K8sConfigMap
  unfolding listing config_maps
  config_map_list cs = listing "configmaps" loading error cs (config_maps lower search cs)

  unfoldable pub secret_list : List K8sSecret → Listing K8sSecret
  unfolding listing secrets
  secret_list ss = listing "secrets" loading error ss (secrets lower search ss)

  -- The table of the workloads is one for each kind that has some.
  unfoldable pub workload_list : List K8sWorkload → Listing KindGroup
  unfolding listing workloads by_kind
  workload_list ws = elim (listing "workloads" loading error ws (workloads lower search ws)) [
    | waiting ↦ waiting
    | failed m ↦ failed m
    | message m ↦ message m
    | table kept ↦ table (by_kind kept)
  ]

-- `addresses.find((a) => a.type === 'InternalIP')?.address ?? '—'`
unfoldable pub internal_ip : List NodeAddress → String
internal_ip [] = "—"
internal_ip (a ∷ rest) =
    let later = internal_ip rest in if a.type is "InternalIP" then a.address else later

-- The badges of the roles of a node.
unfoldable pub role_badges : List String → List String
role_badges [] = "—" ∷ []
role_badges (r ∷ rs) = r ∷ rs
