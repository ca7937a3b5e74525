-- ===== src/Base/Text.antt =====
-- Text: a `String` is a sequence of Unicode scalar values, and is compared and joined as a whole.
use Prim.Native.Char.{code}
use Prim.Native.String
use Prim.Native.String.{String, [], ◌∷◌}
use mathlib.Core.Bool.{Bool, ◌||◌}
use mathlib.Core.Option.{Option, none, some}
use control_room.Base.Tests.{◌==◌, if◌then◌else◌, is_some}
use text.Mathlib.Text.{◌==◌ as text_eq}

infixr 66 ◌<>◌
-- `s + t`
abbrev pub ◌<>◌ : String → String → String
s <> t = String.◌++◌ s t

-- `s === t`
infix 50 ◌is◌
abbrev pub ◌is◌ : String → String → Bool
s is t = text_eq s t

-- `s || '—'`
abbrev pub or_dash : String → String
or_dash s = if s is "" then "—" else s

-- What follows the prefix `t` in `s`, if `s` begins with it: `s.startsWith(t)` with
-- `s.slice(t.length)`.
abbrev pub after_prefix : String → String → Option String
after_prefix [] s = some s
after_prefix (c ∷ t) [] = none
after_prefix (c ∷ t) (d ∷ s) =
    let rest = after_prefix t s in if code c == code d then rest else none

-- `s.includes(t)`
unfoldable pub includes : String → String → Bool
includes [] t = is_some (after_prefix t [])
includes (c ∷ s) t = let later = includes s t in is_some (after_prefix t (c ∷ s)) || later
