-- ===== src/Examples/Cached.antt =====
-- Concrete keys, paths and invalidations of the queries.
use control_room.Base.{String, true, false, none, some, ◌≡◌, ◌≢◌, refl, arith, ◌is◌, ap}
use control_room.Queries.{k8s_workloads, k8s_pod_detail, to_params, add_param}
use control_room.Queries.Encoding.{encode, form_encode, percent_utf8, percent, hex, nth_digit}
use control_room.Queries.Paths.{fetch_path}
use control_room.Queries.Keys.{key_determines}
use control_room.Queries.Mutations.{Mutation, scale_workload}
use control_room.Cluster.Page.{
  Page, Row, workloads, press, user, no_sheets, step, is_unavailable, sheet_query,
}
use control_room.Cluster.Page.Laws.{scaled_from_all}
use control_room.Queries.Cache.{Cache, succeed}

encodes : encode "a/ü" ≡ "a%2F%C3%BC"
unfolding encode percent_utf8 percent hex nth_digit
encodes = refl

filters :
    to_params (record {
      unit = some "ssh.service";
      priority = some "-1";
      since = none;
      until = some "";
      q = some "a b";
      n = some "200";
    })
    ≡ "?unit=ssh.service&q=a+b&n=200"
unfolding to_params add_param form_encode
filters = refl

key_determines_example :
    (k8s_pod_detail (some "a") (some "b") ≡ k8s_pod_detail (some "a") (some "b"))
    × (fetch_path (λ s. s) (k8s_pod_detail (some "a") (some "b"))
        ≡ fetch_path (λ s. s) (k8s_pod_detail (some "a") (some "b")))
key_determines_example =
    key_determines (λ s. s) (k8s_pod_detail (some "a") (some "b"))
      (k8s_pod_detail (some "a") (some "b")) refl

-- Nothing was fetched yet.
abbrev empty : Cache
empty q = record { value = none; is_stale = false }

abbrev scaling : Mutation
scaling = scale_workload "default" "Deployment" "web" "3"

abbrev all_workloads : Page
all_workloads = record {
  tab = workloads;
  namespace = "";
  search = "";
  namespaces_error = none;
  sheets = no_sheets;
}

abbrev web : Row
web = record { namespace = "shop"; kind = "Deployment"; name = "web" }

shop-named : web.namespace ≢ ""
shop-named p = ground (arith, ap (λ (t : String). t is "") p)

scaled_from_all_example :
    let page = step (user (press web)) all_workloads in
    let after = succeed (scale_workload "shop" "Deployment" "web" "3") empty in
    ((after (sheet_query workloads page.sheets)).is_stale ≡ true)
    × ((after (k8s_workloads "shop")).is_stale ≡ true)
    × (after (k8s_workloads page.namespace) ≡ empty (k8s_workloads page.namespace))
unfolding is_unavailable
scaled_from_all_example = scaled_from_all web "3" all_workloads empty refl refl refl shop-named
