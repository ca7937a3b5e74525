-- ===== src/Cluster/Page.antt =====
-- web/src/routes/Kubernetes.tsx: the tab, the namespace and the text to search for, the sheets that are
-- open beside the lists, and the queries that the page uses. A sheet reports of itself being closed.
pub mod Laws
use control_room.Base.{
  String, Bool, true, false, List, [], ◌∷◌, Option, none, some, ◌==◌, if◌then◌else◌,
}
use control_room.Api.Types.{Thrown, api_error}
use control_room.Queries.{
  Query, k8s_nodes, k8s_namespaces, k8s_workloads, k8s_pods, k8s_services, k8s_configmaps,
  k8s_secrets, k8s_node_detail, k8s_workload_detail, k8s_pod_detail, k8s_service_detail,
  k8s_configmap_detail, k8s_secret_detail,
}

pub data Tab : Type 0 where
  nodes workloads pods services configmaps secrets : Tab

pub record WorkloadOpen : Type 0 where
  pub namespace : String
  pub kind : String
  pub name : String

-- `PodOpen`, `ServiceOpen`, `ConfigMapOpen` and `SecretOpen`.
pub record ObjectOpen : Type 0 where
  pub namespace : String
  pub name : String

-- The sheets; that of the nodes is given by the node's name.
pub record Sheets : Type 0 where
  pub node : Option String
  pub workload : Option WorkloadOpen
  pub pod : Option ObjectOpen
  pub service : Option ObjectOpen
  pub config_map : Option ObjectOpen
  pub secret : Option ObjectOpen

pub record Page : Type 0 where
  pub tab : Tab
  pub namespace : String
  pub search : String
  pub namespaces_error : Option Thrown
  pub sheets : Sheets

-- The names that a row of a list passes to `onOpen`; a list passes those it has.
pub record Row : Type 0 where
  pub namespace : String
  pub kind : String
  pub name : String

-- What the user does: `press` is a row of the list that the page shows, `sheet` what a tab's sheet
-- reports.
pub data Act : Type 0 where
  choose_tab : Tab → Act
  choose_namespace type_search : String → Act
  press : Row → Act
  sheet : Tab → Bool → Act

-- `settled` is the error, or none, with which the query of the namespaces settles.
pub data Event : Type 0 where
  user : Act → Event
  settled : Option Thrown → Event

abbrev pub no_sheets : Sheets
no_sheets = record {
  node = none;
  workload = none;
  pod = none;
  service = none;
  config_map = none;
  secret = none;
}

abbrev pub initial : Page
initial = record {
  tab = nodes;
  namespace = "";
  search = "";
  namespaces_error = none;
  sheets = no_sheets;
}

unfoldable pub object_of : Row → ObjectOpen
object_of r = record { namespace = r.namespace; name = r.name }

-- The `onOpen` of the tab's list.
unfoldable pub open_sheet : Tab → Row → Sheets → Sheets
unfolding object_of
open_sheet nodes r o = record o { node = some r.name }
open_sheet workloads r o = record o {
  workload = some (record { namespace = r.namespace; kind = r.kind; name = r.name });
}
open_sheet pods r o = record o { pod = some (object_of r) }
open_sheet services r o = record o { service = some (object_of r) }
open_sheet configmaps r o = record o { config_map = some (object_of r) }
open_sheet secrets r o = record o { secret = some (object_of r) }

-- The `onOpenChange` of the tab's sheet.
unfoldable pub change_sheet : Tab → Bool → Sheets → Sheets
change_sheet t true o = o
change_sheet nodes false o = record o { node = none }
change_sheet workloads false o = record o { workload = none }
change_sheet pods false o = record o { pod = none }
change_sheet services false o = record o { service = none }
change_sheet configmaps false o = record o { config_map = none }
change_sheet secrets false o = record o { secret = none }

unfoldable pub act : Act → Page → Page
unfolding open_sheet change_sheet
act (choose_tab t) s = record s { tab = t }
act (choose_namespace ns) s = record s { namespace = ns }
act (type_search t) s = record s { search = t }
act (press r) s = record s { sheets = open_sheet s.tab r s.sheets }
act (sheet t b) s = record s { sheets = change_sheet t b s.sheets }

-- `namespacesQ.error instanceof ApiError && namespacesQ.error.status === 503`
unfoldable pub is_unavailable : Option Thrown → Bool
is_unavailable (some (api_error e)) = e.status == 503
is_unavailable _ = false

-- While the cluster is unavailable the page has neither controls, lists nor sheets.
unfoldable pub step : Event → Page → Page
unfolding act is_unavailable
step (user e) s = if is_unavailable s.namespaces_error then s else act e s
step (settled e) s = record s { namespaces_error = e }

unfoldable pub run : List Event → Page → Page
unfolding step
run [] s = s
run (e ∷ es) s = run es (step e s)

-- The lists that are fetched, on every tab.
unfoldable pub list_queries : Page → List Query
list_queries s =
    k8s_namespaces
    ∷ k8s_nodes
    ∷ k8s_workloads s.namespace
    ∷ k8s_pods s.namespace
    ∷ k8s_services s.namespace
    ∷ k8s_configmaps s.namespace
    ∷ k8s_secrets s.namespace
    ∷ []

-- `open?.namespace ?? null`, and likewise the names.
unfoldable pub namespace_of : Option ObjectOpen → Option String
namespace_of none = none
namespace_of (some o) = some o.namespace

unfoldable pub name_of : Option ObjectOpen → Option String
name_of none = none
name_of (some o) = some o.name

unfoldable pub workload_query : Option WorkloadOpen → Query
workload_query none = k8s_workload_detail none none none
workload_query (some w) = k8s_workload_detail (some w.namespace) (some w.kind) (some w.name)

-- What the sheets ask for with what the page passes to them.
unfoldable pub sheet_query : Tab → Sheets → Query
unfolding namespace_of name_of workload_query
sheet_query nodes o = k8s_node_detail o.node
sheet_query workloads o = workload_query o.workload
sheet_query pods o = k8s_pod_detail (namespace_of o.pod) (name_of o.pod)
sheet_query services o = k8s_service_detail (namespace_of o.service) (name_of o.service)
sheet_query configmaps o = k8s_configmap_detail (namespace_of o.config_map) (name_of o.config_map)
sheet_query secrets o = k8s_secret_detail (namespace_of o.secret) (name_of o.secret)
