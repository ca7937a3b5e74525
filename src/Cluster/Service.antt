-- ===== src/Cluster/Service.antt =====
-- web/src/components/k8s/ServiceDetail.tsx and EventsTable.tsx: the sheet of a service of the cluster,
-- what it shows, and the manifest editor beside it. `relative` is `formatRelativeTime` at the time of
-- the rendering.
pub mod Edited
use control_room.Base.{
  or_dash, String, Bool, true, false, ◌&&◌, List, [], ◌∷◌, map, Option, none, some, ◌is◌, ◌<>◌,
  if◌then◌else◌, or_default,
}
use control_room.Badges.{Variant, success, danger, service_pill, event_badge}
use control_room.Queries.{Query, k8s_service_detail, k8s_manifest, is_truthy}
use control_room.Queries.K8sTypes.{K8sServiceDetail, ServicePort, K8sEndpointAddr, K8sEvent}
use control_room.Cluster.Page.{ObjectOpen}

abbrev pub Row : Type 0
Row = List String

unfoldable pub port_row : ServicePort → Row
port_row p = or_dash p.name ∷ p.port ∷ p.target_port ∷ p.protocol ∷ or_default p.node_port "—" ∷ []

unfoldable pub endpoint_badge : K8sEndpointAddr → Variant × String
endpoint_badge e = if e.ready then (success, "Yes") else (danger, "No")

-- A row of a table that has one badge, with the cells beside it.
abbrev pub BadgeRow : Type 0
BadgeRow = (Variant × String) × Row

unfoldable pub endpoint_row : K8sEndpointAddr → BadgeRow
unfolding endpoint_badge
endpoint_row e = (endpoint_badge e, e.ip ∷ or_dash e.node_name ∷ [])

unfoldable pub selector_badge : String × String → String
selector_badge (k, v) = k <> "=" <> v

pub data Section : Type 0 where
  ports : List Row → Section
  no_endpoints : Section
  endpoints : List BadgeRow → Section
  selector : List String → Section
  no_events : Section
  events : List BadgeRow → Section

unfoldable pub ports_section : List ServicePort → List Section → List Section
unfolding port_row
ports_section [] rest = rest
ports_section (p ∷ ps) rest = ports (map port_row (p ∷ ps)) ∷ rest

unfoldable pub endpoints_section : List K8sEndpointAddr → Section
unfolding endpoint_row
endpoints_section [] = no_endpoints
endpoints_section (e ∷ es) = endpoints (map endpoint_row (e ∷ es))

unfoldable pub selector_section : List (String × String) → List Section → List Section
unfolding selector_badge
selector_section [] rest = rest
selector_section (p ∷ ps) rest = selector (map selector_badge (p ∷ ps)) ∷ rest

-- The sheet, with the service that the page has selected.
pub record View : Type 0 where
  pub selected : Option ObjectOpen
  pub detail : Option K8sServiceDetail
  pub editor_open : Bool

-- `select` is the page's choice of a service, `close` what the sheet reports of being closed.
pub data Event : Type 0 where
  select : ObjectOpen → Event
  close press_edit editor_closed : Event
  loaded : Option K8sServiceDetail → Event

unfoldable pub step : Event → View → View
step (select o) s = record s { selected = some o }
step close s = record s { selected = none }
step press_edit s = record s { editor_open = true }
step editor_closed s = record s { editor_open = false }
step (loaded d) s = record s { detail = d }

unfoldable pub run : List Event → View → View
run [] s = s
run (e ∷ es) s = run es (step e s)

unfoldable pub name_of : Option ObjectOpen → Option String
name_of none = none
name_of (some o) = some o.name

unfoldable pub namespace_of : Option ObjectOpen → Option String
namespace_of none = none
namespace_of (some o) = some o.namespace

-- `useK8sServiceDetail(open ? namespace : null, open ? name : null)`
unfoldable pub sheet_query : View → Query
unfolding name_of namespace_of
sheet_query s = k8s_service_detail (namespace_of s.selected) (name_of s.selected)

-- `svc?.name ?? name`, where `null` is shown as nothing.
unfoldable pub title : View → String
unfolding name_of
title s = elim s.detail [ none ↦ or_default (name_of s.selected) "" | some d ↦ d.service.name ]

unfoldable pub description : View → String
unfolding namespace_of
description s = elim s.detail [
  | none ↦ or_default (namespace_of s.selected) ""
  | some d ↦ d.service.namespace <> " · " <> or_dash d.service.cluster_ip
]

-- The manifest editor is rendered for a selection whose names are not empty, beside the sheet.
unfoldable pub is_edited : View → Bool
unfolding name_of namespace_of
is_edited s = is_truthy (namespace_of s.selected) && is_truthy (name_of s.selected)

-- The query of the manifest editor, if it is rendered.
unfoldable pub editor_query : View → Option Query
unfolding is_edited
editor_query s = elim s.selected [
  | none ↦ none
  | some o ↦
      if is_edited s
      then some (
          if s.editor_open
          then k8s_manifest "service" o.namespace o.name
          else k8s_manifest "" "" "")
      else none
]

module _ (relative : String → String) where
  unfoldable pub event_row : K8sEvent → BadgeRow
  unfolding event_badge
  event_row e = (
    (event_badge e.type, e.type),
    e.reason ∷ e.source ∷ e.message ∷ (if e.last is "" then "—" else relative e.last) ∷ [],
  )

  unfoldable pub events_section : List K8sEvent → Section
  unfolding event_row
  events_section [] = no_events
  events_section (e ∷ es) = events (map event_row (e ∷ es))

  -- The pill of the type with the address, and the sections below it.
  unfoldable pub body : K8sServiceDetail → BadgeRow × List Section
  unfolding ports_section endpoints_section selector_section events_section service_pill
  body d = (
    ((service_pill d.service.type, d.service.type), d.service.cluster_ip ∷ []),
    ports_section d.service.ports (
        endpoints_section d.endpoints ∷ selector_section d.selector (events_section d.events ∷ [])),
  )
