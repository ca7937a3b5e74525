-- ===== src/Logs/Picker.antt =====
-- `ContainersView` of web/src/routes/Logs.tsx: the container whose log is followed.
use control_room.Base.{
  String, Bool, true, false, List, [], ◌∷◌, ◌++◌, any, ◌is◌, ◌<>◌, if◌then◌else◌, All, ◌≡◌, ◌≢◌,
  refl, arith, eq_iff, Bool-cases, inl, inr, ap, ◌∙◌,
}
use control_room.Queries.Types.{ContainerSummary}

pub record Picker : Type 0 where
  pub containers : List ContainerSummary
  pub selected_id : String
  pub search_text : String
  pub paused : Bool

pub data Event : Type 0 where
  loaded : List ContainerSummary → Event
  select type_search : String → Event
  set_paused : Bool → Event

abbrev pub is_running : ContainerSummary → Bool
is_running c = c.state is "running"

-- `containers.find((c) => c.state === 'running') ?? d`
unfoldable pub running_or : ContainerSummary → List ContainerSummary → ContainerSummary
running_or d [] = d
running_or d (c ∷ cs) = let rest = running_or d cs in if is_running c then c else rest

-- The effect, which runs after each change of the containers and of the selection.
unfoldable pub auto_pick : List ContainerSummary → String → String
unfolding running_or
auto_pick [] selected = selected
auto_pick (c ∷ cs) selected = if selected is "" then (running_or c (c ∷ cs)).id else selected

unfoldable pub step : Event → Picker → Picker
unfolding auto_pick
step (loaded cs) s = record s { containers = cs; selected_id = auto_pick cs s.selected_id }
step (select i) s = record s { selected_id = auto_pick s.containers i }
step (type_search t) s = record s { search_text = t }
step (set_paused b) s = record s { paused = b }

unfoldable pub run : List Event → Picker → Picker
run [] s = s
run (e ∷ es) s = run es (step e s)

-- `labelFor`
unfoldable pub label_for : ContainerSummary → String
label_for c = (if is_running c then "●" else "○") <> " " <> c.name <> " (" <> c.image <> ")"

-- No event but the user's choice.
abbrev pub IsPassive : Event → Type 0
IsPassive (loaded cs) = Unit
IsPassive (select i) = ⊥
IsPassive (type_search t) = Unit
IsPassive (set_paused b) = Unit

auto_pick-kept : (cs : List ContainerSummary) (i : String) → i ≢ "" → auto_pick cs i ≡ i
unfolding auto_pick
auto_pick-kept [] i h = refl
auto_pick-kept (c ∷ cs) i h = ground (arith, h, eq_iff i "")

step-kept :
    (e : Event) (s : Picker)
    → IsPassive e
    → s.selected_id ≢ ""
    → (step e s).selected_id ≡ s.selected_id
unfolding step
step-kept (loaded cs) s p h = auto_pick-kept cs s.selected_id h
step-kept (select i) s p h = absurd p
step-kept (type_search t) s p h = refl
step-kept (set_paused b) s p h = refl

pub run-kept :
    (es : List Event) (s : Picker)
    → All IsPassive es
    → s.selected_id ≢ ""
    → (run es s).selected_id ≡ s.selected_id
unfolding run
run-kept [] s p h = refl
run-kept (e ∷ es) s (p, ps) h =
    let k = step-kept e s p h in run-kept es (step e s) ps (λ q. h (ground (arith, q, k))) ∙ k

-- A container of the list, which is running if one of the list is.
pub data Offered (cs : List ContainerSummary) (i : String) : Type 0 where
  offered :
      (before : List ContainerSummary) (c : ContainerSummary) (after : List ContainerSummary)
      → cs ≡ before ++ (c ∷ after)
      → i ≡ c.id
      → (any is_running cs ≡ true → is_running c ≡ true)
      → Offered cs i

-- The first running container, or there is none and the default remains.
data Found (d : ContainerSummary) (cs : List ContainerSummary) : Type 0 where
  running :
      (before : List ContainerSummary) (c : ContainerSummary) (after : List ContainerSummary)
      → cs ≡ before ++ (c ∷ after)
      → running_or d cs ≡ c
      → is_running c ≡ true
      → Found d cs
  nothing : any is_running cs ≡ false → running_or d cs ≡ d → Found d cs

running_or-Found : (d : ContainerSummary) (cs : List ContainerSummary) → Found d cs
unfolding running_or
running_or-Found d [] = nothing refl refl
running_or-Found d (c ∷ cs) = elim (Bool-cases (is_running c)) [
  | inl e ↦ running [] c cs refl (ground (arith, e)) e
  | inr e ↦ later c cs e (running_or-Found d cs)
]
  where
    later :
        (c : ContainerSummary) (cs : List ContainerSummary)
        → is_running c ≡ false
        → Found d cs
        → Found d (c ∷ cs)
    later c cs e (running before b after p q r) =
        running (c ∷ before) b after (ap (λ l. c ∷ l) p) (ground (arith, e, q)) r
    later c cs e (nothing p q) = nothing (ground (arith, e, p)) (ground (arith, e, q))

auto_pick-Offered :
    (c : ContainerSummary) (cs : List ContainerSummary) → Offered (c ∷ cs) (auto_pick (c ∷ cs) "")
unfolding auto_pick
auto_pick-Offered c cs = elim (running_or-Found c (c ∷ cs)) [
  | running before b after p q r ↦
      offered before b after p (ap (λ (x : ContainerSummary). x.id) q) (λ _. r)
  | nothing p q ↦
      offered [] c cs refl (ap (λ (x : ContainerSummary). x.id) q)
        (λ h. absurd (ground (arith, p, h)))
]

blank_Offered :
    (c : ContainerSummary) (cs : List ContainerSummary) (l : List ContainerSummary)
    → l ≡ c ∷ cs
    → Offered (c ∷ cs) (auto_pick l "")
blank_Offered c cs l p = rw p (auto_pick-Offered c cs)

-- A container that the user chooses stays chosen while the list is read again and the lines are
-- searched; but the entry without a container never stays chosen once the list has a container: the view
-- takes one of the list at once, a running one if there is any.
pub choice_lem :
    (i : String) (es : List Event) (c : ContainerSummary) (cs : List ContainerSummary) (s : Picker)
    → i ≢ ""
    → All IsPassive es
    → s.containers ≡ c ∷ cs
    → ((run (select i ∷ es) s).selected_id ≡ i) × Offered (c ∷ cs) (step (select "") s).selected_id
unfolding run step
choice_lem i es c cs s n p h =
    let k = auto_pick-kept s.containers i n in
    (
      run-kept es (step (select i) s) p (λ q. n (ground (arith, q, k))) ∙ k,
      blank_Offered c cs s.containers h,
    )
