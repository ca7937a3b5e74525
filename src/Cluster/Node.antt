-- ===== src/Cluster/Node.antt =====
-- web/src/components/k8s/NodeDetail.tsx: whether a node is cordoned, and the dialog that changes it.
use control_room.Base.{
  String, Bool, true, false, not, ◌&&◌, ◌||◌, List, [], ◌∷◌, Option, none, some, ◌is◌, any,
  if◌then◌else◌, or_default, ◌≡◌, ◌≢◌, arith, eq_iff,
}
use control_room.Queries.K8sTypes.{K8sCondition, K8sTaint, K8sNodeDetail}
use control_room.Queries.Mutations.{Mutation, cordon_node}

unfoldable pub is_cordon_taint : K8sTaint → Bool
is_cordon_taint t = t.key is "node.kubernetes.io/unschedulable" && t.effect is "NoSchedule"

unfoldable pub is_disabled_condition : K8sCondition → Bool
is_disabled_condition c = c.type is "SchedulingDisabled" && c.status is "True"

-- `data?.taints.some(…)`
unfoldable pub by_taints : Option K8sNodeDetail → Option Bool
by_taints none = none
by_taints (some d) = some (any is_cordon_taint d.taints)

-- `data?.conditions.some(…)`
unfoldable pub by_conditions : Option K8sNodeDetail → Option Bool
by_conditions none = none
by_conditions (some d) = some (any is_disabled_condition d.conditions)

unfoldable pub is_cordoned : Option K8sNodeDetail → Bool
is_cordoned d = or_default (by_taints d) (or_default (by_conditions d) false)

-- The sheet of the node `name`; `sent` is what was sent, the last one first.
pub record View : Type 0 where
  pub name : Option String
  pub detail : Option K8sNodeDetail
  pub cordon_open : Bool
  pub is_pending : Bool
  pub is_error : Bool
  pub sent : List Mutation

-- `dialog` is what the dialog itself reports of being opened and closed.
pub data Event : Type 0 where
  loaded : Option K8sNodeDetail → Event
  press_cordon : Event
  dialog : Bool → Event
  confirm succeeded failed : Event

abbrev pub cordon_label : View → String
cordon_label s = if is_cordoned s.detail then "Uncordon" else "Cordon"

-- `handleCordonConfirm`, whose button is disabled while a call is pending.
unfoldable pub on_confirm : Option String → View → View
on_confirm none s = s
on_confirm (some n) s = if n is "" || s.is_pending || not s.cordon_open then s else record s {
  is_pending = true;
  is_error = false;
  sent = cordon_node n (not (is_cordoned s.detail)) ∷ s.sent;
}

unfoldable pub step : Event → View → View
unfolding on_confirm
step (loaded d) s = record s { detail = d }
step press_cordon s = record s { cordon_open = true }
step (dialog b) s = record s { cordon_open = b }
step confirm s = on_confirm s.name s
step succeeded s = if s.is_pending then record s { is_pending = false; cordon_open = false } else s
step failed s = if s.is_pending then record s { is_pending = false; is_error = true } else s

unfoldable pub run : List Event → View → View
run [] s = s
run (e ∷ es) s = run es (step e s)

-- From a node's sheet with no call under way: opening the dialog and confirming sends one request for
-- the other state than the node's taints show, and once it succeeded and the node was read with that
-- state, doing the same again sends the request that takes it back; the dialog is closed after each.
pub cordon_alternates :
    (n : String) (d d' : Option K8sNodeDetail) (s : View)
    → n ≢ ""
    → s.name ≡ some n
    → s.is_pending ≡ false
    → s.detail ≡ d
    → is_cordoned d' ≡ not (is_cordoned d)
    → let t =
        run
          (press_cordon ∷ confirm ∷ succeeded ∷ loaded d' ∷ press_cordon ∷ confirm ∷ succeeded ∷ [])
          s in
      (t.sent ≡ cordon_node n (is_cordoned d) ∷ cordon_node n (not (is_cordoned d)) ∷ s.sent)
      × (t.cordon_open ≡ false)
      × (t.is_pending ≡ false)
unfolding run step on_confirm
cordon_alternates n d d' s ne hn hp hd h = ground (arith, hn, hp, hd, h, eq_iff n "")
