-- ===== src/Cluster/Pod/Laws.antt =====
-- The container that the sheet of a pod shows, and what its dialog sends.
use control_room.Base.{
  String, Bool, true, false, ◌||◌, List, [], ◌∷◌, Option, none, some, ◌is◌, if◌then◌else◌, ◌≡◌, ◌≢◌,
  refl, arith, eq_iff, All, inl, inr, Bool-cases, ◌∙◌, ap,
}
use control_room.Queries.K8sTypes.{K8sContainerStatus}
use control_room.Queries.Mutations.{delete_pod}
use control_room.Cluster.Pod.{
  View, Event, select, press_delete, tick_force, confirm, find_name, first_name, or_else, active_in,
  resolved_container, on_confirm, step, run,
}

-- A container of the list has this name.
unfoldable pub has_name : String → List K8sContainerStatus → Bool
has_name n [] = false
has_name n (c ∷ cs) = c.name is n || has_name n cs

-- What is shown of the containers `cs` after the choice `active`.
pub data Shown (active : Option String) (cs : List K8sContainerStatus) (r : Option String)
    : Type 0 where
  nothing : cs ≡ [] → r ≡ none → Shown active cs r
  chosen : (n : String) → active ≡ some n → has_name n cs ≡ true → r ≡ some n → Shown active cs r
  first :
      (c : K8sContainerStatus) (rest : List K8sContainerStatus)
      → cs ≡ c ∷ rest
      → ((n : String) → active ≡ some n → has_name n cs ≡ false)
      → r ≡ some c.name
      → Shown active cs r

find_name-has_name :
    (n : String) (cs : List K8sContainerStatus)
    → find_name n cs ≡ (if has_name n cs then some n else none)
unfolding find_name has_name
find_name-has_name n [] = refl
find_name-has_name n (c ∷ cs) = ground (arith, find_name-has_name n cs, eq_iff c.name n)

has_name-blank : (cs : List K8sContainerStatus) → All (λ c. c.name ≢ "") cs → has_name "" cs ≡ false
unfolding has_name
has_name-blank [] h = refl
has_name-blank (c ∷ cs) (h, hs) = ground (arith, has_name-blank cs hs, eq_iff c.name "", h)

-- Where the name of each container is a text that is not empty, the sheet of a pod without containers
-- shows no logs; otherwise it shows those of the chosen container when there is one of that name, and
-- those of the first container when nothing was chosen or no container has the chosen name.
pub resolved_container-Shown :
    (active : Option String) (cs : List K8sContainerStatus)
    → All (λ c. c.name ≢ "") cs
    → Shown active cs (resolved_container active cs)
unfolding resolved_container active_in first_name or_else has_name
resolved_container-Shown none [] h = nothing refl refl
resolved_container-Shown (some a) [] h = nothing refl (ground (arith, find_name-has_name a []))
resolved_container-Shown none (c ∷ cs) h =
    first c cs refl (λ (n : String) e. absurd (ground (arith, e)))
      (ground (arith, h, eq_iff c.name ""))
resolved_container-Shown (some a) (c ∷ cs) h = elim (Bool-cases (has_name a (c ∷ cs))) [
  | inl e ↦
      chosen a refl e
        (ground (arith, e, find_name-has_name a (c ∷ cs), has_name-blank (c ∷ cs) h, eq_iff a ""))
  | inr e ↦
      first c cs refl (λ (n : String) (p : some a ≡ some n). ground (arith, e, p))
        (ground (arith, e, find_name-has_name a (c ∷ cs), h, eq_iff c.name ""))
]

-- No event but a click on the box changes whether a deletion is forced.
unfoldable pub is_tick : Event → Bool
is_tick (tick_force b) = true
is_tick e = false

step-force : (e : Event) (s : View) → is_tick e ≡ false → (step e s).force ≡ s.force
unfolding step is_tick
step-force confirm s h = on_confirm-force s.namespace s.name s
  where
    on_confirm-force : (ns n : Option String) (s : View) → (on_confirm ns n s).force ≡ s.force
    on_confirm-force none n s = refl
    on_confirm-force (some ns) none s = refl
    on_confirm-force (some ns) (some n) s = ground arith
step-force e s h = ground arith

run-force :
    (es : List Event) (s : View) → All (λ e. is_tick e ≡ false) es → (run es s).force ≡ s.force
unfolding run
run-force [] s h = refl
run-force (e ∷ es) s (h, hs) = run-force es (step e s) hs ∙ step-force e s h

selected_deletion :
    (ns n : String) (t : View)
    → ns ≢ ""
    → n ≢ ""
    → t.is_pending ≡ false
    → (run (select ns n ∷ press_delete ∷ confirm ∷ []) t).sent ≡ delete_pod ns n t.force ∷ t.sent
unfolding run step on_confirm
selected_deletion ns n t k m p = ground (arith, p, k, m, eq_iff ns "", eq_iff n "")

-- Whether a deletion is forced is not reset: after any events without a click on the box, failed and
-- successful deletions included, deleting whichever pod is selected next is sent as forced exactly when
-- the box was ticked before, provided no call is pending then and its names are not empty.
pub force_carries_over :
    (ns n : String) (es : List Event) (s : View)
    → All (λ e. is_tick e ≡ false) es
    → ns ≢ ""
    → n ≢ ""
    → (run es s).is_pending ≡ false
    → (run (select ns n ∷ press_delete ∷ confirm ∷ []) (run es s)).sent
      ≡ delete_pod ns n s.force ∷ (run es s).sent
force_carries_over ns n es s h k m p =
    selected_deletion ns n (run es s) k m p
    ∙ ap (λ b. delete_pod ns n b ∷ (run es s).sent) (run-force es s h)
