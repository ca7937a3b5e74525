-- ===== src/Cluster/Page/Laws.antt =====
-- The sheets and lists of web/src/routes/Kubernetes.tsx over any events.
use control_room.Base.{
  String, true, false, List, [], ◌∷◌, Option, some, ◌≡◌, ◌≢◌, refl, arith, ◌∙◌, ap,
}
use control_room.Api.Types.{Thrown}
use control_room.Queries.Types.{Number}
use control_room.Queries.{
  Query, k8s_workloads, k8s_node_detail, k8s_workload_detail, k8s_pod_detail, k8s_service_detail,
  k8s_configmap_detail, k8s_secret_detail,
}
use control_room.Queries.Mutations.{scale_workload}
use control_room.Queries.Cache.{
  Cache, scaled, scaled_detail, succeed, mutation_refreshes, all_namespaces_kept,
}
use control_room.Cluster.Page.{
  Tab, nodes, workloads, pods, services, configmaps, secrets, Row, object_of, Event, choose_tab,
  choose_namespace, type_search, press, user, settled, act, is_unavailable, Page, Sheets, step, run,
  open_sheet, namespace_of, name_of, workload_query, sheet_query,
}

-- Choices of a tab, of a namespace and of a text to search for, and answers to the query of the
-- namespaces.
pub data IsBrowsing : Event → Type 0 where
  by_tab : (t : Tab) → IsBrowsing (user (choose_tab t))
  by_namespace : (ns : String) → IsBrowsing (user (choose_namespace ns))
  by_search : (t : String) → IsBrowsing (user (type_search t))
  by_answer : (e : Option Thrown) → IsBrowsing (settled e)

pub data AllBrowsing : List Event → Type 0 where
  none_left : AllBrowsing []
  also : (e : Event) (es : List Event) → IsBrowsing e → AllBrowsing es → AllBrowsing (e ∷ es)

step-sheets : (e : Event) (s : Page) → IsBrowsing e → (step e s).sheets ≡ s.sheets
unfolding step act
step-sheets e s (by_tab t) = ground arith
step-sheets e s (by_namespace ns) = ground arith
step-sheets e s (by_search t) = ground arith
step-sheets e s (by_answer r) = refl

pressed :
    (r : Row) (s : Page)
    → is_unavailable s.namespaces_error ≡ false
    → step (user (press r)) s ≡ record s { sheets = open_sheet s.tab r s.sheets }
unfolding step act
pressed r s h = rw h refl

run-sheets : (es : List Event) (s : Page) → AllBrowsing es → (run es s).sheets ≡ s.sheets
unfolding run
run-sheets es s none_left = refl
run-sheets es s (also e es' b bs) = run-sheets es' (step e s) bs ∙ step-sheets e s b

-- The query that shows the object of a row of a tab's list.
unfoldable pub row_query : Tab → Row → Query
row_query nodes r = k8s_node_detail (some r.name)
row_query workloads r = k8s_workload_detail (some r.namespace) (some r.kind) (some r.name)
row_query pods r = k8s_pod_detail (some r.namespace) (some r.name)
row_query services r = k8s_service_detail (some r.namespace) (some r.name)
row_query configmaps r = k8s_configmap_detail (some r.namespace) (some r.name)
row_query secrets r = k8s_secret_detail (some r.namespace) (some r.name)

opened-query : (t : Tab) (r : Row) (o : Sheets) → sheet_query t (open_sheet t r o) ≡ row_query t r
unfolding sheet_query open_sheet workload_query namespace_of name_of object_of row_query
opened-query nodes r o = refl
opened-query workloads r o = refl
opened-query pods r o = refl
opened-query services r o = refl
opened-query configmaps r o = refl
opened-query secrets r o = refl

-- The sheet of an object that is pressed in a tab's list of an available cluster asks for that object, in
-- the row's namespace, as long as the user only goes on to other tabs, namespaces and texts to search
-- for, even if the cluster is unavailable in between.
pub sheet_survives :
    (es : List Event) (r : Row) (s : Page)
    → is_unavailable s.namespaces_error ≡ false
    → AllBrowsing es
    → sheet_query s.tab (run (user (press r) ∷ es) s).sheets ≡ row_query s.tab r
unfolding run
sheet_survives es r s h b =
    ap (sheet_query s.tab) (run-sheets es (step (user (press r)) s) b)
    ∙ ap (λ (t : Page). sheet_query s.tab t.sheets) (pressed r s h)
    ∙ opened-query s.tab r s.sheets

-- On the workloads tab of an available cluster with all namespaces chosen, a row of a namespace that has a
-- name is pressed. When that workload has then been scaled, its sheet's query and the list of its own
-- namespace are fetched again, while the list of all namespaces, which the page still shows, is left as it
-- was.
pub scaled_from_all :
    (r : Row) (n : Number) (s : Page) (c : Cache)
    → is_unavailable s.namespaces_error ≡ false
    → s.tab ≡ workloads
    → s.namespace ≡ ""
    → r.namespace ≢ ""
    → let page = step (user (press r)) s in
      let after = succeed (scale_workload r.namespace r.kind r.name n) c in
      ((after (sheet_query workloads page.sheets)).is_stale ≡ true)
      × ((after (k8s_workloads r.namespace)).is_stale ≡ true)
      × (after (k8s_workloads page.namespace) ≡ c (k8s_workloads page.namespace))
scaled_from_all r n s c a t h k =
    let after = succeed (scale_workload r.namespace r.kind r.name n) c in
    rw (pressed r s a) (
      ap (λ t. (after (sheet_query workloads (open_sheet t r s.sheets))).is_stale) t
          ∙ ap (λ q. (after q).is_stale) (opened-query workloads r s.sheets)
          ∙ (unfold row_query in
              (mutation_refreshes _ _ c).0 (scaled_detail r.namespace r.kind r.name n)),
      (mutation_refreshes _ _ c).0 (scaled r.namespace r.kind r.name n),
      rw h (all_namespaces_kept r.namespace r.kind r.name n c k),
    )
