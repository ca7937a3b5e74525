-- ===== src/Cluster/Kinds.antt =====
-- The groups of web/src/components/k8s/WorkloadList.tsx.
use mathlib.Core.List.{Perm, perm_middle}
use mathlib.Core.List.Perm
use control_room.Base.{
  String, true, false, List, [], ◌∷◌, ◌++◌, append-nil, map, keep, ◌is◌, All, ◌≡◌, ◌≢◌, refl, arith,
  eq_iff, Bool-cases, inl, inr, ap, sym, subst, ◌⊎◌, ◌∙◌,
}
use control_room.Queries.K8sTypes.{K8sWorkload}
use control_room.Cluster.Lists.{KindGroup, kind_order, of_kind, is_filled, has_items, by_kind}

-- The workloads of the groups, in their order.
unfoldable pub shown : List KindGroup → List K8sWorkload
shown [] = []
shown (g ∷ gs) = g.items ++ shown gs

-- A group has workloads, all of its kind.
pub record IsKindGroup (g : KindGroup) : Type 0 where
  pub nonempty : g.items ≢ []
  pub uniform : All (λ w. w.kind ≡ g.kind) g.items

abbrev pub HasKind : K8sWorkload → Type 0
HasKind w = (w.kind ≡ "Deployment") ⊎ ((w.kind ≡ "StatefulSet") ⊎ (w.kind ≡ "DaemonSet"))

is_filled-nil : (ws : List K8sWorkload) → is_filled ws ≡ false → ws ≡ []
unfolding is_filled
is_filled-nil [] e = refl
is_filled-nil (w ∷ ws) e = absurd (ground (arith, e))

is_filled-nonempty : (ws : List K8sWorkload) → is_filled ws ≡ true → ws ≢ []
unfolding is_filled
is_filled-nonempty ws e p = ground (arith, e, ap is_filled p)

has_items-nil : (g : KindGroup) → has_items g ≡ false → g.items ≡ []
unfolding has_items
has_items-nil g h = is_filled-nil g.items h

has_items-nonempty : (g : KindGroup) → has_items g ≡ true → g.items ≢ []
unfolding has_items
has_items-nonempty g h = is_filled-nonempty g.items h

shown-keep : (gs : List KindGroup) → shown (keep has_items gs) ≡ shown gs
unfolding shown
shown-keep [] = refl
shown-keep (g ∷ gs) = elim (Bool-cases (has_items g)) [
  | inl e ↦ rw e (ap (λ ws. g.items ++ ws) (shown-keep gs))
  | inr e ↦ rw (e, has_items-nil g e) (shown-keep gs)
]

keep-uniform :
    (k : String) (ws : List K8sWorkload) → All (λ w. w.kind ≡ k) (keep (λ w. w.kind is k) ws)
keep-uniform k [] = tt
keep-uniform k (w ∷ ws) = elim (Bool-cases (w.kind is k)) [
  | inl e ↦ rw e ((eq_iff w.kind k).0 e, keep-uniform k ws)
  | inr e ↦ rw e (keep-uniform k ws)
]

-- The workloads of the three kinds, one kind after the other.
abbrev arranged : List K8sWorkload → List K8sWorkload
arranged ws =
    keep (λ w. w.kind is "Deployment") ws
    ++ (keep (λ w. w.kind is "StatefulSet") ws ++ keep (λ w. w.kind is "DaemonSet") ws)

arranged-perm : (ws : List K8sWorkload) → All HasKind ws → Perm (arranged ws) ws
arranged-perm [] h = Perm.refl []
arranged-perm (w ∷ ws) (inl e, hs) =
    let d : (w.kind is "Deployment") ≡ true = ap (λ k. k is "Deployment") e in
    let s : (w.kind is "StatefulSet") ≡ false = ap (λ k. k is "StatefulSet") e in
    let m : (w.kind is "DaemonSet") ≡ false = ap (λ k. k is "DaemonSet") e in
    rw (d, s, m) (Perm.cons w (arranged-perm ws hs))
arranged-perm (w ∷ ws) (inr (inl e), hs) =
    let d : (w.kind is "Deployment") ≡ false = ap (λ k. k is "Deployment") e in
    let s : (w.kind is "StatefulSet") ≡ true = ap (λ k. k is "StatefulSet") e in
    let m : (w.kind is "DaemonSet") ≡ false = ap (λ k. k is "DaemonSet") e in
    rw (d, s, m)
      (Perm.trans (perm_middle (keep (λ w. w.kind is "Deployment") ws) _)
        (Perm.cons w (arranged-perm ws hs)))
arranged-perm (w ∷ ws) (inr (inr e), hs) =
    let d : (w.kind is "Deployment") ≡ false = ap (λ k. k is "Deployment") e in
    let s : (w.kind is "StatefulSet") ≡ false = ap (λ k. k is "StatefulSet") e in
    let m : (w.kind is "DaemonSet") ≡ true = ap (λ k. k is "DaemonSet") e in
    let front = keep (λ w. w.kind is "Deployment") ws in
    rw (d, s, m)
      (Perm.trans (Perm.append_left front (perm_middle (keep (λ w. w.kind is "StatefulSet") ws) _))
        (Perm.trans (perm_middle front _) (Perm.cons w (arranged-perm ws hs))))

kept :
    (gs : List KindGroup)
    → All (λ g. All (λ w. w.kind ≡ g.kind) g.items) gs
    → All IsKindGroup (keep has_items gs)
kept [] h = tt
kept (g ∷ gs) (h, hs) = elim (Bool-cases (has_items g)) [
  | inl e ↦ rw e (record { nonempty = has_items-nonempty g e; uniform = h }, kept gs hs)
  | inr e ↦ rw e (kept gs hs)
]

-- Where every workload is of one of the three kinds, the groups show each workload exactly as often as
-- the list has it, no group is empty, and each has workloads of its own kind only.
pub by_kind_lem :
    (ws : List K8sWorkload)
    → All HasKind ws
    → Perm (shown (by_kind ws)) ws × All IsKindGroup (by_kind ws)
unfolding by_kind of_kind shown
by_kind_lem ws h = (
  subst (λ vs. Perm vs ws)
      (sym (
        shown-keep (map (of_kind ws) kind_order)
        ∙ ap
            (λ vs.
              keep (λ w. w.kind is "Deployment") ws
              ++ (keep (λ w. w.kind is "StatefulSet") ws ++ vs))
            (append-nil _)))
      (arranged-perm ws h),
  kept (map (of_kind ws) kind_order) (
    keep-uniform "Deployment" ws,
    (keep-uniform "StatefulSet" ws, (keep-uniform "DaemonSet" ws, tt)),
  ),
)
