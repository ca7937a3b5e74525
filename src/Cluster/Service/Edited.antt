-- ===== src/Cluster/Service/Edited.antt =====
-- web/src/components/k8s/ServiceDetail.tsx with the manifest editor that it renders.
use control_room.Base.{
  String, Bool, true, false, some, ◌≡◌, ◌≢◌, refl, arith, eq_iff, ap, if◌then◌else◌,
}
use control_room.Queries.{Query, k8s_manifest, k8s_service_detail, is_enabled}
use control_room.Queries.Mutations.{apply_manifest}
use control_room.Queries.Cache.{Cache, succeed, mutation_refreshes, applied_service}
use control_room.Cluster.Page.{ObjectOpen}
use control_room.Cluster.Service.{View, sheet_query, editor_query, is_edited, name_of, namespace_of}

sheet_query-selected :
    (s : View) (o : ObjectOpen)
    → s.selected ≡ some o
    → sheet_query s ≡ k8s_service_detail (some o.namespace) (some o.name)
unfolding sheet_query name_of namespace_of
sheet_query-selected s o h = rw h refl

-- What the editor asks for, of the service that is selected.
asked : ObjectOpen → Bool → Query
asked o true = k8s_manifest "service" o.namespace o.name
asked o false = k8s_manifest "" "" ""

is_edited-selected :
    (s : View) (o : ObjectOpen)
    → s.selected ≡ some o
    → o.namespace ≢ ""
    → o.name ≢ ""
    → is_edited s ≡ true
unfolding is_edited name_of namespace_of
is_edited-selected s o h k m = rw h (ground (arith, k, m, eq_iff o.namespace "", eq_iff o.name ""))

asked-cases :
    (o : ObjectOpen) (b : Bool)
    → (if b then k8s_manifest "service" o.namespace o.name else k8s_manifest "" "" "") ≡ asked o b
unfolding asked
asked-cases o true = refl
asked-cases o false = refl

editor_query-selected :
    (s : View) (o : ObjectOpen)
    → s.selected ≡ some o
    → o.namespace ≢ ""
    → o.name ≢ ""
    → editor_query s ≡ some (asked o s.editor_open)
unfolding editor_query
editor_query-selected s o h k m =
    rw (h, is_edited-selected s o h k m, editor_query) (ap some (asked-cases o s.editor_open))

asked-is_enabled :
    (o : ObjectOpen) (b : Bool) → o.namespace ≢ "" → o.name ≢ "" → is_enabled (asked o b) ≡ b
unfolding asked is_enabled
asked-is_enabled o true k m = ground (arith, eq_iff o.namespace "", eq_iff o.name "")
asked-is_enabled o false k m = refl

-- While a service is selected whose names are not empty, the manifest editor asks the server exactly
-- while it is open, and then for the manifest of that service; and when its apply has succeeded, what
-- the sheet shows is fetched again.
pub edited_refreshes :
    (s : View) (o : ObjectOpen) (y v : String) (c : Cache)
    → s.selected ≡ some o
    → o.namespace ≢ ""
    → o.name ≢ ""
    → (q : Query) × (editor_query s ≡ some q)
      × (is_enabled q ≡ s.editor_open)
      × (s.editor_open ≡ true → q ≡ k8s_manifest "service" o.namespace o.name)
      × ((succeed
            (apply_manifest "service" o.namespace o.name y v false)
            c
            (sheet_query s)).is_stale
          ≡ true)
unfolding asked
edited_refreshes s o y v c h k m = (
  asked o s.editor_open,
  editor_query-selected s o h k m,
  asked-is_enabled o s.editor_open k m,
  (λ e. rw e refl),
  rw (sheet_query-selected s o h)
      ((mutation_refreshes _ _ c).0 (applied_service "service" o.namespace o.name y v)),
)
