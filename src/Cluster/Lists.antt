-- ===== src/Cluster/Lists.antt =====
-- The lists of web/src/components/k8s: NodeList.tsx, WorkloadList.tsx, PodList.tsx, ServiceList.tsx,
-- ConfigMapList.tsx and SecretList.tsx. `lower` is `toLowerCase`.
use control_room.Base.{
  String, Bool, true, false, ◌||◌, List, [], ◌∷◌, map, keep, ◌is◌, ◌<>◌, if◌then◌else◌, includes,
}
use control_room.Queries.K8sTypes.{
  K8sNode, K8sWorkload, K8sPod, K8sService, K8sConfigMap, K8sSecret, ServicePort,
}

module _ (lower : String → String) where
  unfoldable pub named : String → String → Bool
  unfolding includes
  named needle name = includes (lower name) needle

  -- A name or a namespace holds the text.
  unfoldable pub placed : String → String → String → Bool
  unfolding named
  placed needle name namespace = named needle name || named needle namespace

  -- `needle ? list.filter(…) : list`
  unfoldable pub filtered : {A : Type 0} → (String → A → Bool) → String → List A → List A
  filtered matches text list =
      let needle = lower text in if needle is "" then list else keep (matches needle) list

  unfoldable pub nodes : String → List K8sNode → List K8sNode
  unfolding filtered named
  nodes = filtered (λ needle n. named needle n.name)

  unfoldable pub workloads : String → List K8sWorkload → List K8sWorkload
  unfolding filtered placed
  workloads = filtered (λ needle w. placed needle w.name w.namespace)

  unfoldable pub pods : String → List K8sPod → List K8sPod
  unfolding filtered placed
  pods = filtered (λ needle p. placed needle p.name p.namespace)

  unfoldable pub services : String → List K8sService → List K8sService
  unfolding filtered placed
  services = filtered (λ needle s. placed needle s.name s.namespace)

  unfoldable pub config_maps : String → List K8sConfigMap → List K8sConfigMap
  unfolding filtered placed
  config_maps = filtered (λ needle c. placed needle c.name c.namespace)

  unfoldable pub secrets : String → List K8sSecret → List K8sSecret
  unfolding filtered placed
  secrets = filtered (λ needle s. placed needle s.name s.namespace)

abbrev pub kind_order : List String
kind_order = "Deployment" ∷ "StatefulSet" ∷ "DaemonSet" ∷ []

pub record KindGroup : Type 0 where
  pub kind : String
  pub items : List K8sWorkload

unfoldable pub of_kind : List K8sWorkload → String → KindGroup
of_kind ws kind = record { kind = kind; items = keep (λ w. w.kind is kind) ws }

-- `items.length > 0`
unfoldable pub is_filled : List K8sWorkload → Bool
is_filled [] = false
is_filled (w ∷ ws) = true

unfoldable pub has_items : KindGroup → Bool
unfolding is_filled
has_items g = is_filled g.items

-- `byKind`
unfoldable pub by_kind : List K8sWorkload → List KindGroup
unfolding of_kind has_items
by_kind ws = keep has_items (map (of_kind ws) kind_order)

unfoldable pub format_port : ServicePort → String
format_port p = p.port <> "→" <> p.target_port <> "/" <> p.protocol

-- `join(', ')`
unfoldable pub join : List String → String
join [] = ""
join (s ∷ []) = s
join (s ∷ t ∷ ss) = s <> ", " <> join (t ∷ ss)

unfoldable pub format_ports : K8sService → String
unfolding join format_port
format_ports s = elim s.ports [ [] ↦ "—" | p ∷ ps ↦ join (map format_port (p ∷ ps)) ]
