-- ===== src/Setup/Meter.antt =====
-- web/src/components/PasswordStrength.tsx: the bar under the field of a password.
use control_room.Base.{
  ℕ, String, List, [], ◌∷◌, map, keep, length, ltb, not, ◌is◌, if◌then◌else◌, ◌≡◌, refl, leb, ◌==◌,
  Bool-cases, inl, inr,
}
use control_room.Setup.Strength.{
  Strength, too_short, weak, fair, good, strong, StrengthResult, evaluate_password, points, rate,
  length16,
}

-- `colors`
abbrev pub colour : Strength → String
colour too_short = "bg-muted"
colour weak = "bg-destructive"
colour fair = "bg-amber-500"
colour good = "bg-sky-500"
colour strong = "bg-emerald-500"

unfoldable pub segment : StrengthResult → ℕ → String
segment r i = if ltb i r.score then colour r.level else "bg-muted"

-- The four segments.
unfoldable pub segments : String → List String
unfolding segment
segments pw = map (segment (evaluate_password pw)) (0 ∷ 1 ∷ 2 ∷ 3 ∷ [])

abbrev coloured : StrengthResult → ℕ
unfolding segment
coloured r = length (keep (λ c. not (c is "bg-muted")) (map (segment r) (0 ∷ 1 ∷ 2 ∷ 3 ∷ [])))

rate-coloured : (n : ℕ) → coloured (rate n) ≡ (rate n).score
unfolding rate segment
rate-coloured n = elim (Bool-cases (leb n 2)) [
  | inl a ↦ rw a refl
  | inr a ↦ elim (Bool-cases (n == 3)) [
    | inl b ↦ rw (a, b) refl
    | inr b ↦ elim (Bool-cases (n == 4)) [ inl c ↦ rw (a, b, c) refl | inr c ↦ rw (a, b, c) refl ]
  ]
]

-- As many segments are coloured as the password has points.
pub coloured_segments :
    (pw : String)
    → length (keep (λ c. not (c is "bg-muted")) (segments pw)) ≡ (evaluate_password pw).score
unfolding segments evaluate_password
coloured_segments pw = elim (Bool-cases (ltb (length16 pw) 12)) [
  | inl short ↦ rw short refl
  | inr long ↦ rw long (rate-coloured (points pw))
]
