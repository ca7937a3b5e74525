-- ===== src/Examples/Strokes.antt =====
-- A server that numbers the rules of a firewall by strokes.
use Prim.Native.String.{[], ◌∷◌}
use control_room.Base.{ℕ, zero, suc, String, Char, List, ◌++◌, length, ◌≡◌, refl, ap}
use control_room.Network.Renumber.{Rule, Removes}

abbrev stroke : Char
stroke = "I"

unfoldable pub print : ℕ → String
print zero = ""
print (suc n) = stroke ∷ print n

unfoldable pub remove_from : String → List Rule → List Rule
remove_from t List.[] = List.[]
remove_from [] (List.◌∷◌ r rs) = rs
remove_from (c ∷ t) (List.◌∷◌ r rs) = List.◌∷◌ r (remove_from t rs)

unfoldable pub remove : String → List Rule → List Rule
unfolding remove_from
remove [] rs = rs
remove (c ∷ t) rs = remove_from t rs

remove_from-place :
    (before : List Rule) (r : Rule) (after : List Rule)
    → remove_from (print (length before)) (before ++ List.◌∷◌ r after) ≡ before ++ after
unfolding remove_from print
remove_from-place List.[] r after = refl
remove_from-place (List.◌∷◌ b before) r after = ap (List.◌∷◌ b) (remove_from-place before r after)

pub strokes-Removes : Removes print remove
unfolding remove print
strokes-Removes before r after = remove_from-place before r after
