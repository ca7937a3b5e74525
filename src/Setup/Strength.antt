-- ===== src/Setup/Strength.antt =====
-- web/src/lib/strength.ts: how strong a password is.
use Prim.Native.String.{[], ◌∷◌}
use text.Mathlib.TextLemmas
use control_room.Base.{
  ℕ, ◌+◌, ◌≤◌, ◌<◌, String, Char, code, Bool, false, not, ◌&&◌, ◌||◌, ltb, leb, if◌then◌else◌, ◌<>◌,
  ◌==◌, ◌≡◌, ◌↔◌, refl, arith,
}

pub data Strength : Type 0 where
  too_short weak fair good strong : Strength

pub record StrengthResult : Type 0 where
  pub level : Strength
  pub score : ℕ
  pub hint : String

-- `s.length`: the number of UTF-16 code units.
unfoldable pub length16 : String → ℕ
length16 [] = 0
length16 (c ∷ s) = (if ltb (code c) 65_536 then 1 else 2) + length16 s

-- `/[p]/.test(s)`
unfoldable pub test : (Char → Bool) → String → Bool
test p [] = false
test p (c ∷ s) = p c || test p s

abbrev pub is_between : ℕ → ℕ → Char → Bool
is_between a b c = leb a (code c) && leb (code c) b

abbrev pub is_lower : Char → Bool
is_lower = is_between 97 122

abbrev pub is_upper : Char → Bool
is_upper = is_between 65 90

abbrev pub is_digit : Char → Bool
is_digit = is_between 48 57

abbrev pub is_symbol : Char → Bool
is_symbol c = not (is_lower c || is_upper c || is_digit c)

abbrev pub count : Bool → ℕ
count b = if b then 1 else 0

-- `score` after the last increment
unfoldable pub points : String → ℕ
points pw =
    count (test is_lower pw)
    + count (test is_upper pw)
    + count (test is_digit pw)
    + count (test is_symbol pw)
    + count (leb 16 (length16 pw))
    + count (leb 20 (length16 pw))

-- The ways out of the function behind the first.
unfoldable pub rate : ℕ → StrengthResult
rate n =
    if leb n 2
    then record { level = weak; score = 1; hint = "Mix upper, lower, digits, and symbols." }
    else if n == 3
    then record { level = fair; score = 2; hint = "Decent — longer is better." }
    else if n == 4
    then record { level = good; score = 3; hint = "Good — consider 16+ characters." }
    else record { level = strong; score = 4; hint = "Strong." }

unfoldable pub evaluate_password : String → StrengthResult
unfolding rate
evaluate_password pw =
    if ltb (length16 pw) 12
    then record { level = too_short; score = 0; hint = "At least 12 characters." }
    else rate (points pw)

length16-append : (s t : String) → length16 (s <> t) ≡ length16 s + length16 t
unfolding length16
length16-append [] t = rw (TextLemmas.nil-append t) (omega arith)
length16-append (c ∷ s) t = rw (TextLemmas.cons-append c s t) (omega (arith, length16-append s t))

test-append : (p : Char → Bool) (s t : String) → test p (s <> t) ≡ test p s || test p t
unfolding test
test-append p [] t = rw (TextLemmas.nil-append t) refl
test-append p (c ∷ s) t = rw (TextLemmas.cons-append c s t) (ground (arith, test-append p s t))

test-longer : (p : Char → Bool) (s t : String) → count (test p s) ≤ count (test p (s <> t))
test-longer p s t = ground (arith, test-append p s t)

size-longer :
    (n : ℕ) (s t : String) → count (leb n (length16 s)) ≤ count (leb n (length16 (s <> t)))
size-longer n s t = ground (arith, length16-append s t)

points-longer : (s t : String) → points s ≤ points (s <> t)
unfolding points
points-longer s t =
    let lower = test-longer is_lower s t in
    let upper = test-longer is_upper s t in
    let digit = test-longer is_digit s t in
    let symbol = test-longer is_symbol s t in
    let long = size-longer 16 s t in let longer = size-longer 20 s t in omega arith

-- Typing on never makes a password weaker, and a password is too short exactly below twelve UTF-16
-- code units.
pub strength_grows :
    (s t : String)
    → ((evaluate_password s).score ≤ (evaluate_password (s <> t)).score)
      × ((evaluate_password s).level ≡ too_short ↔ length16 s < 12)
unfolding evaluate_password rate
strength_grows s t = (
  ground (arith, points-longer s t, length16-append s t),
  ((λ h. ground arith), λ h. ground arith),
)
