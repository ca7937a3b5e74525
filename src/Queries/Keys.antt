-- ===== src/Queries/Keys.antt =====
-- From the keys of Queries back to the queries.
use mathlib.Core.Option.{some-injective}
use control_room.Base.{
  String, [], ◌∷◌, Option, none, some, ◌is◌, if◌then◌else◌, ◌≡◌, refl, sym, ap, ◌∙◌,
}
use control_room.Queries.{
  Part, text, null, service_args, log_query, Key, Name, name_part, Query, me, setup_status,
  capabilities, system_overview, services, service_detail, containers, container_detail, interfaces,
  firewall, updates_list, settings, logs, k8s_nodes, k8s_namespaces, k8s_workloads, k8s_pods,
  k8s_services, k8s_configmaps, k8s_secrets, k8s_node_detail, k8s_workload_detail, k8s_pod_detail,
  k8s_service_detail, k8s_configmap_detail, k8s_secret_detail, k8s_manifest, key,
}
use control_room.Queries.Paths.{fetch_path}

name_of : Part → Name
name_of (text s) = some s
name_of _ = none

name_of-name_part : (n : Name) → name_of (name_part n) ≡ n
unfolding name_of
name_of-name_part none = refl
name_of-name_part (some s) = refl

-- `['k8s', kind, p]`
k8s_list : String → Part → Option Query
k8s_list kind (text ns) =
    if kind is "workloads"
    then some (k8s_workloads ns)
    else if kind is "pods"
    then some (k8s_pods ns)
    else if kind is "services"
    then some (k8s_services ns)
    else if kind is "configmaps"
    then some (k8s_configmaps ns)
    else if kind is "secrets"
    then some (k8s_secrets ns)
    else none
k8s_list kind _ = none

-- `['k8s', kind, p, q, r]`
k8s_pair : String → Part → Part → Part → Option Query
unfolding name_of
k8s_pair kind p q r =
    if kind is "pods"
    then some (k8s_pod_detail (name_of p) (name_of q))
    else if kind is "services"
    then some (k8s_service_detail (name_of p) (name_of q))
    else if kind is "configmap"
    then some (k8s_configmap_detail (name_of q) (name_of r))
    else if kind is "secret"
    then some (k8s_secret_detail (name_of q) (name_of r))
    else manifest p q r
  where
    manifest : Part → Part → Part → Option Query
    manifest (text k) (text ns) (text name) = some (k8s_manifest k ns name)
    manifest _ _ _ = none

k8s_query : String → Key → Option Query
unfolding k8s_list k8s_pair name_of
k8s_query kind [] =
    if kind is "nodes"
    then some k8s_nodes
    else if kind is "namespaces"
    then some k8s_namespaces
    else none
k8s_query kind (p ∷ []) = k8s_list kind p
k8s_query kind (p ∷ q ∷ []) = some (k8s_node_detail (name_of p))
k8s_query kind (p ∷ q ∷ r ∷ []) = k8s_pair kind p q r
k8s_query kind (p ∷ q ∷ r ∷ _) = some (k8s_workload_detail (name_of p) (name_of q) (name_of r))

-- `[first]`
single : String → Option Query
single a =
    if a is "me"
    then some me
    else if a is "setup-status"
    then some setup_status
    else if a is "containers"
    then some containers
    else if a is "settings"
    then some settings
    else none

-- `[first, second]`
double : String → Part → Option Query
double a (service_args args) = some (services args)
double a (log_query q) = some (logs q)
double a null = none
double a (text b) =
    if b is "capabilities"
    then some capabilities
    else if b is "overview"
    then some system_overview
    else if b is "interfaces"
    then some interfaces
    else if b is "firewall"
    then some firewall
    else if b is "list"
    then some updates_list
    else none

-- `[first, 'detail', third]`
triple : String → Part → Option Query
unfolding name_of
triple a p =
    if a is "services"
    then some (service_detail (name_of p))
    else if a is "containers"
    then some (container_detail (name_of p))
    else none

rest_of : String → Key → Option Query
unfolding single double triple
rest_of a [] = single a
rest_of a (p ∷ []) = double a p
rest_of a (p ∷ q ∷ _) = triple a q

query_of : Key → Option Query
unfolding k8s_query rest_of
query_of (text a ∷ text b ∷ ks) = if a is "k8s" then k8s_query b ks else rest_of a (text b ∷ ks)
query_of (text a ∷ ks) = rest_of a ks
query_of _ = none

query_of-key : (q : Query) → query_of (key q) ≡ some q
unfolding query_of key
query_of-key (service_detail n) = ap (λ m. some (service_detail m)) (name_of-name_part n)
query_of-key (container_detail n) = ap (λ m. some (container_detail m)) (name_of-name_part n)
query_of-key (k8s_node_detail n) = ap (λ m. some (k8s_node_detail m)) (name_of-name_part n)
query_of-key (k8s_workload_detail ns k n) =
    rw (name_of-name_part ns) (rw (name_of-name_part k) (rw (name_of-name_part n) refl))
query_of-key (k8s_pod_detail ns n) = rw (name_of-name_part ns) (rw (name_of-name_part n) refl)
query_of-key (k8s_service_detail ns n) = rw (name_of-name_part ns) (rw (name_of-name_part n) refl)
query_of-key (k8s_configmap_detail ns n) = rw (name_of-name_part ns) (rw (name_of-name_part n) refl)
query_of-key (k8s_secret_detail ns n) = rw (name_of-name_part ns) (rw (name_of-name_part n) refl)
query_of-key _ = refl

-- Two queries with one key are one query, so an entry of the cache is never shared: it is always
-- fetched from the same path.
pub key_determines :
    (lower : String → String) (q r : Query)
    → key q ≡ key r
    → (q ≡ r) × (fetch_path lower q ≡ fetch_path lower r)
key_determines lower q r h = (same, ap (fetch_path lower) same)
  where
    same : q ≡ r
    same = some-injective q r (sym (query_of-key q) ∙ (ap query_of h ∙ query_of-key r))
