-- ===== src/Queries/Cache.antt =====
-- The cache that the hooks of web/src/lib share, and what a mutation that succeeds makes of it.
use control_room.Base.{
  String, Bool, true, false, ◌&&◌, List, [], ◌∷◌, Option, some, ◌is◌, if◌then◌else◌, any, ◌≡◌, ◌≢◌,
  refl, arith, eq_iff, eq_refl,
}
use control_room.Queries.Types.{Number}
use control_room.Queries.{
  Part, text, null, Key, Query, containers, container_detail, services, service_detail, firewall,
  k8s_nodes, k8s_workloads, k8s_pods, k8s_configmaps, k8s_node_detail, k8s_workload_detail,
  k8s_service_detail, k8s_configmap_detail, key,
}
use control_room.Queries.Paths.{Answer}
use control_room.Queries.Mutations.{
  Mutation, service_action, container_action, container_remove, add_rule, delete_rule,
  firewall_toggle, restart_workload, scale_workload, delete_pod, cordon_node, update_config_map,
  apply_manifest, invalidates,
}

-- What is kept of a query: an entry that is stale is fetched again.
pub record Entry (A : Type 0) : Type 0 where
  pub value : Option A
  pub is_stale : Bool

abbrev pub Cache : Type 0
Cache = (q : Query) → Entry (Answer q)

-- Parts of keys that are texts or null are compared; an invalidation names no object.
unfoldable pub same_part : Part → Part → Bool
same_part (text s) (text t) = s is t
same_part null null = true
same_part _ _ = false

-- A key covers the keys that it begins.
unfoldable pub covers : Key → Key → Bool
unfolding same_part
covers [] k = true
covers (p ∷ ps) [] = false
covers (p ∷ ps) (q ∷ qs) = let rest = covers ps qs in same_part p q && rest

abbrev pub covered : List Key → Query → Bool
covered ks q = any (λ k. covers k (key q)) ks

-- `qc.invalidateQueries` for each key.
unfoldable pub invalidate : List Key → Cache → Cache
unfolding covers key
invalidate ks c q = if covered ks q then record (c q) { is_stale = true } else c q

-- The `onSuccess` of a mutation.
unfoldable pub succeed : Mutation → Cache → Cache
unfolding invalidate invalidates
succeed m c = invalidate (invalidates m) c

-- Lists and details that show what a mutation changes, in the namespace where it changes it. A manifest
-- shows it too, and is not fetched again.
pub data Shows : Mutation → Query → Type 0 where
  unit_list :
      (name action : String) → (args : _) → Shows (service_action name action) (services args)
  unit_detail :
      (name action : String) → Shows (service_action name action) (service_detail (some name))
  started : (id action : String) → Shows (container_action id action) containers
  started_detail :
      (id action : String) → Shows (container_action id action) (container_detail (some id))
  removed : (id : String) (force : Bool) → Shows (container_remove id force) containers
  rule_added : (spec : _) → Shows (add_rule spec) firewall
  rule_deleted : (index : Number) → Shows (delete_rule index) firewall
  toggled : (enable : Bool) → Shows (firewall_toggle enable) firewall
  restarted : (ns kind name : String) → Shows (restart_workload ns kind name) (k8s_workloads ns)
  restarted_detail :
      (ns kind name : String)
      → Shows
          (restart_workload ns kind name)
          (k8s_workload_detail (some ns) (some kind) (some name))
  scaled :
      (ns kind name : String) (n : Number)
      → Shows (scale_workload ns kind name n) (k8s_workloads ns)
  scaled_detail :
      (ns kind name : String) (n : Number)
      → Shows
          (scale_workload ns kind name n)
          (k8s_workload_detail (some ns) (some kind) (some name))
  pod_deleted :
      (ns name other : String) (force : Bool) → Shows (delete_pod ns name force) (k8s_pods other)
  cordoned : (name : String) (b : Bool) → Shows (cordon_node name b) k8s_nodes
  cordoned_detail :
      (name : String) (b : Bool) → Shows (cordon_node name b) (k8s_node_detail (some name))
  config_saved :
      (ns name : String) (o : _) → Shows (update_config_map ns name o) (k8s_configmaps ns)
  config_saved_detail :
      (ns name : String) (o : _)
      → Shows (update_config_map ns name o) (k8s_configmap_detail (some ns) (some name))
  applied_workloads :
      (kind ns name y v : String) → Shows (apply_manifest kind ns name y v false) (k8s_workloads ns)
  applied_workload :
      (kind other ns name y v : String)
      → Shows
          (apply_manifest kind ns name y v false)
          (k8s_workload_detail (some ns) (some other) (some name))
  applied_service :
      (kind ns name y v : String)
      → Shows (apply_manifest kind ns name y v false) (k8s_service_detail (some ns) (some name))
  applied_config :
      (kind ns name y v : String)
      → Shows (apply_manifest kind ns name y v false) (k8s_configmap_detail (some ns) (some name))

Shows-covered : (m : Mutation) (q : Query) → Shows m q → covered (invalidates m) q ≡ true
unfolding covers key invalidates
Shows-covered m q (restarted ns kind name) = ground (arith, eq_refl ns)
Shows-covered m q (restarted_detail ns kind name) = ground (arith, eq_refl ns)
Shows-covered m q (scaled ns kind name n) = ground (arith, eq_refl ns)
Shows-covered m q (scaled_detail ns kind name n) = ground (arith, eq_refl ns)
Shows-covered m q (pod_deleted ns name other force) = ground arith
Shows-covered m q (config_saved ns name o) = ground (arith, eq_refl ns)
Shows-covered m q (config_saved_detail ns name o) = ground (arith, eq_refl ns, eq_refl name)
Shows-covered m q (applied_workloads kind ns name y v) = ground (arith, eq_refl ns)
Shows-covered m q (applied_workload kind other ns name y v) = ground (arith, eq_refl ns)
Shows-covered m q (applied_service kind ns name y v) = ground (arith, eq_refl ns)
Shows-covered m q (applied_config kind ns name y v) = ground (arith, eq_refl ns, eq_refl name)
Shows-covered m q (cordoned_detail name b) = ground arith
Shows-covered m q _ = refl

-- When a mutation succeeds, each query that `Shows` names for it is fetched again, and the queries that
-- none of its keys covers keep their entries.
pub mutation_refreshes :
    (m : Mutation) (q : Query) (c : Cache)
    → (Shows m q → (succeed m c q).is_stale ≡ true)
      × (covered (invalidates m) q ≡ false → succeed m c q ≡ c q)
unfolding succeed invalidate
mutation_refreshes m q c = ((λ s. rw (Shows-covered m q s) refl), λ h. rw h refl)

-- The list of all namespaces is cached under the empty namespace. Scaling a workload of any other
-- namespace leaves that list as it was.
pub all_namespaces_kept :
    (ns kind name : String) (n : Number) (c : Cache)
    → ns ≢ ""
    → succeed (scale_workload ns kind name n) c (k8s_workloads "") ≡ c (k8s_workloads "")
unfolding succeed invalidate covers key invalidates
all_namespaces_kept ns kind name n c h = rw missed refl
  where
    missed : covered (invalidates (scale_workload ns kind name n)) (k8s_workloads "") ≡ false
    missed = ground (arith, eq_iff ns "")
