-- ===== src/Manifest/Versions.antt =====
-- How the text and the version that the editor of web/src/components/k8s/ManifestEditor.tsx compares
-- with can change.
use control_room.Base.{String, List, some, ◌≡◌, refl, sym, subst, arith, inl, inr, Option-cases}
use control_room.Manifest.{
  sync, Action, dry_run, apply, K8sManifest, ApplyRequest, Editor, Event, fetch_settled, succeeded,
  settled, on_success, on_error, step,
}

-- How a step can treat the base.
pub data BaseStep (s t : Editor) : Event → Type 0 where
  kept :
      (e : Event)
      → t.original_yaml ≡ s.original_yaml
      → t.resource_version ≡ s.resource_version
      → BaseStep s t e
  loaded :
      (m : K8sManifest)
      → t.original_yaml ≡ m.yaml
      → t.resource_version ≡ m.resource_version
      → BaseStep s t (fetch_settled (some m))
  committed :
      (r : ApplyRequest) (v : String) (w : List String)
      → s.in_flight ≡ some r
      → r.action ≡ apply
      → t.original_yaml ≡ r.yaml
      → t.resource_version ≡ v
      → BaseStep s t (succeeded v w)

success-BaseStep :
    (a : Action) (r : ApplyRequest) (v : String) (w : List String) (s : Editor)
    → s.in_flight ≡ some r
    → r.action ≡ a
    → BaseStep s (settled a r.yaml v w s) (succeeded v w)
unfolding settled
success-BaseStep dry_run r v w s h k = kept (succeeded v w) refl refl
success-BaseStep apply r v w s h k = committed r v w h k refl refl

quiet-BaseStep :
    (e : Event) (s t : Editor)
    → (t.original_yaml ≡ s.original_yaml) × (t.resource_version ≡ s.resource_version)
    → BaseStep s t e
quiet-BaseStep e s t (h, k) = kept e h k

-- The text and the version that edits are based on change in two ways only: the server's manifest is
-- loaded, or a request that was an apply and no dry run succeeds, and then they are the text that was
-- sent and the version that the server answered.
pub step-BaseStep : (e : Event) (s : Editor) → BaseStep s (step e s) e
unfolding step sync on_success on_error
step-BaseStep (fetch_settled (some m)) s = loaded m refl refl
step-BaseStep (succeeded v w) s = elim (Option-cases s.in_flight) [
  | inl h ↦ quiet-BaseStep (succeeded v w) s _ (ground arith)
  | inr (r, h) ↦
      subst (λ o. BaseStep s (on_success o v w s) (succeeded v w)) (sym h)
        (success-BaseStep r.action r v w s h refl)
]
step-BaseStep e s = quiet-BaseStep e s _ (ground arith)
