-- ===== src/Examples/Frame.antt =====
-- Concrete hosts and numbers of bytes.
use Prim.Native.String.{◌∷◌}
use native.Mathlib.Nat.{div-mul-le_self, lt-div-mul-add}
use control_room.Base.{
  ℕ, ◌+◌, ◌*◌, ◌-◌, ◌/◌, ◌^◌, ◌≤◌, ◌<◌, String, Char, true, not, ◌<>◌, ◌≡◌, ◌⊎◌, refl, includes,
  arith,
}
use control_room.Examples.Strokes.{print}
use control_room.Setup.{all_chars}
use control_room.Format.{Scaled, format_bytes}
use control_room.Format.Bounds.{RoundsTo, IsNear, format_bytes-IsNear}
use control_room.Layout.Banner.{is_publicly_accessed}
use control_room.Layout.Banner.Dotted.{is_private, dotted_is_public}
use control_room.Layout.Banner.Bracketed.{bracketed_is_public}

-- A `toFixed` that rounds halves up and writes the tenths by strokes.
abbrev in_tenths : ℕ → ℕ → ℕ
in_tenths p q = (20 * p + q) / (2 * q)

abbrev rounded : ℕ → ℕ → ℕ → String
rounded p q fixed = print (in_tenths p q)

rounding : RoundsTo rounded print
rounding = record {
  nearest = in_tenths;
  text = λ p q h. refl;
  above = λ p q h. omega (arith, lt-div-mul-add {a = 20 * p + q} {b = 2 * q} (omega (arith, h)));
  below = λ p q h. div-mul-le_self (20 * p + q) (2 * q);
}

-- One byte less than a MiB.
almost_mib : in_tenths (1024 ^ 2 - 1) 1024 ≡ 10_240
almost_mib = refl

format_bytes-IsNear_example :
    ((1_048_575 < 1024) × (format_bytes print rounded 1_048_575 1 ≡ print 1_048_575 <> " B"))
    ⊎ ((1024 ≤ 1_048_575)
        × ((t : ℕ) × (s : Scaled) × IsNear 1_048_575 t s
            × (format_bytes print rounded 1_048_575 1 ≡ print t <> " " <> s.unit)))
format_bytes-IsNear_example = format_bytes-IsNear print rounded print rounding 1_048_575

-- Names of hosts whose letters are small already.
abbrev unchanged : String → String
unchanged s = s

abbrev dot : Char
dot = "."

dotted_is_public_example :
    is_publicly_accessed unchanged ("172" <> (dot ∷ ("20" <> (dot ∷ "0.1"))))
    ≡ not (is_private "172" "20")
unfolding all_chars
dotted_is_public_example = dotted_is_public unchanged "172" "20" dot "0.1" refl refl refl refl refl

abbrev bracket : Char
bracket = "["

bracketed_is_public_example : is_publicly_accessed unchanged (bracket ∷ "::1]") ≡ true
unfolding includes
bracketed_is_public_example = bracketed_is_public unchanged bracket "::1]" refl refl refl
