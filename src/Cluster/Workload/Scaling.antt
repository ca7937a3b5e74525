-- ===== src/Cluster/Workload/Scaling.antt =====
-- What the dialog of web/src/components/k8s/WorkloadDetail.tsx that scales a workload sends.
use control_room.Base.{String, true, false, List, [], ◌∷◌, ◌++◌, map, ◌≡◌, refl, arith, ◌∙◌, ap}
use control_room.Queries.Types.{Number}
use control_room.Queries.Mutations.{scale_workload}
use control_room.Cluster.Workload.{
  View, Event, press_scale, type_replicas, confirm_scale, can_scale, desired, is_selected, on_scale,
  step, run,
}

-- The last of the texts typed, as a number, or the number that the field started with.
unfoldable pub last_typed : (String → Number) → Number → List String → Number
last_typed to_number r [] = r
last_typed to_number r (t ∷ ts) = last_typed to_number (to_number t) ts

module _ (to_number : String → Number) where
  run-append :
      (es fs : List Event) (s : View)
      → run to_number (es ++ fs) s ≡ run to_number fs (run to_number es s)
  unfolding run
  run-append [] fs s = refl
  run-append (e ∷ es) fs s = run-append es fs (step to_number e s)

  run-typed :
      (ts : List String) (r : Number) (s : View)
      → run to_number (map type_replicas ts) (record s { scale_open = true; scale_replicas = r })
        ≡ record s { scale_open = true; scale_replicas = last_typed to_number r ts }
  unfolding run step last_typed
  run-typed [] r s = refl
  run-typed (t ∷ ts) r s = run-typed ts (to_number t) s

  opened :
      (s : View)
      → can_scale s.detail ≡ true
      → step to_number press_scale s
        ≡ record s { scale_open = true; scale_replicas = desired s.detail }
  unfolding step
  opened s h = ground (arith, h)

  confirmed :
      (r : Number) (s : View)
      → is_selected s ≡ true
      → s.scaling ≡ false
      → (on_scale (record s { scale_open = true; scale_replicas = r })).sent
        ≡ scale_workload s.namespace s.kind s.name r ∷ s.sent
  unfolding on_scale is_selected
  confirmed r s h k = ground (arith, h, k)

  -- Opening the dialog for a selected workload that can be scaled, typing any texts and confirming
  -- sends one request: for that workload, with the number that the last text stands for, or with the
  -- number of replicas that is desired already when nothing was typed.
  pub scale_sends_shown :
      (ts : List String) (s : View)
      → can_scale s.detail ≡ true
      → is_selected s ≡ true
      → s.scaling ≡ false
      → (run to_number (press_scale ∷ (map type_replicas ts ++ (confirm_scale ∷ []))) s).sent
        ≡ scale_workload s.namespace s.kind s.name (last_typed to_number (desired s.detail) ts)
          ∷ s.sent
  scale_sends_shown ts s h k p =
      let r = last_typed to_number (desired s.detail) ts in
      unfold run in
      ap (λ t. (run to_number (map type_replicas ts ++ (confirm_scale ∷ [])) t).sent) (opened s h)
      ∙ ap (λ (t : View). t.sent)
          (run-append (map type_replicas ts) (confirm_scale ∷ [])
            (record s { scale_open = true; scale_replicas = desired s.detail }))
      ∙ ap (λ (t : View). (run to_number (confirm_scale ∷ []) t).sent)
          (run-typed ts (desired s.detail) s)
      ∙ (unfold step in confirmed r s k p)

  last_typed-blank :
      (r : Number) (ts : List String) → last_typed to_number r (ts ++ ("" ∷ [])) ≡ to_number ""
  unfolding last_typed
  last_typed-blank r [] = refl
  last_typed-blank r (t ∷ ts) = last_typed-blank (to_number t) ts

  -- Where the blank text counts as the number 0, a field that was emptied last, whatever was typed
  -- before and whatever number of replicas is desired, scales the workload to 0 on confirming.
  pub blank_scales_to_zero :
      (ts : List String) (s : View)
      → to_number "" ≡ "0"
      → can_scale s.detail ≡ true
      → is_selected s ≡ true
      → s.scaling ≡ false
      → (run to_number
          (press_scale ∷ (map type_replicas (ts ++ ("" ∷ [])) ++ (confirm_scale ∷ [])))
          s).sent
        ≡ scale_workload s.namespace s.kind s.name "0" ∷ s.sent
  blank_scales_to_zero ts s z h k p =
      scale_sends_shown (ts ++ ("" ∷ [])) s h k p
      ∙ ap (λ r. scale_workload s.namespace s.kind s.name r ∷ s.sent)
          (last_typed-blank (desired s.detail) ts ∙ z)
