-- ===== src/Containers/Detail/Masked.antt =====
-- Whether the sheet of web/src/components/containers/ContainerDetail.tsx reveals secrets.
use control_room.Base.{String, false, List, [], ◌∷◌, Option, none, some, ◌≡◌, arith, ap, ◌∙◌, sym}
use control_room.Queries.Types.{ContainerDetail}
use control_room.Containers.Env.{Line, lines}
use control_room.Containers.Env.Hidden.{SameButSecrets, secrets_hidden}
use control_room.Containers.Detail.{View, Event, select, loaded, close, step, run, shown}

-- Events without a press of the button that reveals secrets.
pub data IsQuiet : Event → Type 0 where
  by_select : (id : String) (d : Option ContainerDetail) → IsQuiet (select id d)
  by_load : (d : Option ContainerDetail) → IsQuiet (loaded d)
  by_close : IsQuiet close

pub data AllQuiet : List Event → Type 0 where
  none_left : AllQuiet []
  also : (e : Event) (es : List Event) → IsQuiet e → AllQuiet es → AllQuiet (e ∷ es)

step-quiet : (e : Event) (v : View) → IsQuiet e → v.revealed ≡ false → (step e v).revealed ≡ false
unfolding step
step-quiet e v (by_select id d) h = ground (arith, h)
step-quiet e v (by_load d) h = ground (arith, h)
step-quiet e v by_close h = ground (arith, h)

run-quiet :
    (es : List Event) (v : View) → AllQuiet es → v.revealed ≡ false → (run es v).revealed ≡ false
unfolding run
run-quiet _ v none_left h = h
run-quiet _ v (also e es q qs) h = run-quiet es (step e v) qs (step-quiet e v q h)

step-close : (v : View) → (step close v).revealed ≡ false
unfolding step
step-close v = ground arith

-- The lines of the environment that a sheet shows.
abbrev pub env_lines : View → List Line
env_lines v = elim (shown v) [ none ↦ [] | some s ↦ s.env ]

abbrev pub env_of : Option ContainerDetail → List String
env_of none = []
env_of (some d) = d.env

env_lines-revealed : (v : View) → env_lines v ≡ lines v.revealed (env_of v.detail)
unfolding shown lines
env_lines-revealed v = ground arith

-- Once the sheet was closed, and until the button that reveals secrets is pressed, two sheets whose
-- containers differ only in the values of sensitive keys show the same environment, whatever is selected,
-- loaded and closed meanwhile, and whatever was revealed before.
pub closed_sheet_masks :
    (es fs : List Event) (v w : View)
    → AllQuiet es
    → AllQuiet fs
    → SameButSecrets (env_of (run (close ∷ es) v).detail) (env_of (run (close ∷ fs) w).detail)
    → env_lines (run (close ∷ es) v) ≡ env_lines (run (close ∷ fs) w)
closed_sheet_masks es fs v w p q h =
    (env_lines-revealed (run (close ∷ es) v) ∙ masked es v p)
    ∙ secrets_hidden _ _ h
    ∙ sym (env_lines-revealed (run (close ∷ fs) w) ∙ masked fs w q)
  where
    masked :
        (gs : List Event) (u : View)
        → AllQuiet gs
        → lines (run (close ∷ gs) u).revealed (env_of (run (close ∷ gs) u).detail)
          ≡ lines false (env_of (run (close ∷ gs) u).detail)
    masked gs u r =
        ap (λ b. lines b (env_of (run (close ∷ gs) u).detail))
          (unfold run in run-quiet gs (step close u) r (step-close u))
