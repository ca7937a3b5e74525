-- ===== src/Containers/Entry.antt =====
-- The texts of web/src/components/containers/ContainerDetail.tsx: an entry of the environment with its
-- key, and the letters of a key without their case.
pub mod Laws
use Prim.Native.String.{[], ◌∷◌}
use mathlib.Core.Option
use control_room.Base.{
  ℕ, ◌-◌, String, Char, code, Bool, true, false, ◌&&◌, ◌||◌, Option, none, some, leb, ◌==◌,
  if◌then◌else◌,
}

abbrev pub put_front : Char → String × String → String × String
put_front c (k, v) = (c ∷ k, v)

-- `e.slice(0, eq)` and `e.slice(eq + 1)` for `eq = e.indexOf('=')`, if there is one.
unfoldable pub split_entry : String → Option (String × String)
split_entry [] = none
split_entry (c ∷ s) =
    let rest = split_entry s in if code c == 61 then some ("", s) else Option.map (put_front c) rest

-- The code of a character, an ASCII letter without its case: what the flag `i` compares where the pattern
-- has only ASCII letters.
abbrev pub fold_case : Char → ℕ
fold_case c = if leb 97 (code c) && leb (code c) 122 then code c - 32 else code c

unfoldable pub begins : String → String → Bool
begins [] s = true
begins (c ∷ w) [] = false
begins (c ∷ w) (d ∷ s) = let rest = begins w s in fold_case c == fold_case d && rest

-- Whether an alternative of the pattern occurs in a text.
unfoldable pub occurs : String → String → Bool
unfolding begins
occurs w [] = begins w []
occurs w (c ∷ s) = let later = occurs w s in begins w (c ∷ s) || later
