-- ===== src/Layout/Banner.antt =====
-- web/src/components/PublicBindBanner.tsx: when the page warns of a public address. `lower` is
-- `toLowerCase`.
pub mod Texts
pub mod Dotted
pub mod Bracketed
use Prim.Native.String.{[], ◌∷◌}
use control_room.Base.{
  ℕ, zero, suc, ◌+◌, ◌-◌, ◌*◌, String, Char, code, Bool, true, false, not, ◌&&◌, ◌||◌, Option, none,
  some, ◌is◌, ◌==◌, leb, if◌then◌else◌, is_some, after_prefix, includes,
}
use control_room.Setup.Strength.{is_digit}
use control_room.Setup.{all_chars}

-- `s.startsWith(t)`
abbrev pub starts_with : String → String → Bool
starts_with s t = is_some (after_prefix t s)

-- A character of `/^[0-9.]+$/`.
abbrev pub is_dotted : Char → Bool
is_dotted c = is_digit c || code c == 46

unfoldable pub is_ip : String → Bool
unfolding all_chars includes
is_ip host = (not (host is "") && all_chars is_dotted host) || includes host ":"

-- The text before the first dot, and the text behind it.
unfoldable pub until_dot : String → String
until_dot [] = ""
until_dot (c ∷ s) = let rest = until_dot s in if code c == 46 then "" else c ∷ rest

unfoldable pub after_dot : String → String
after_dot [] = ""
after_dot (c ∷ s) = let rest = after_dot s in if code c == 46 then s else rest

-- `host.split('.')[1] ?? ''`
unfoldable pub second_part : String → String
unfolding until_dot after_dot
second_part host = until_dot (after_dot host)

-- The number of the digits that the text begins with, where `acc` is that of the digits before.
unfoldable pub read_digits : ℕ → String → ℕ
read_digits acc [] = acc
read_digits acc (c ∷ s) =
    let rest = read_digits (10 * acc + (code c - 48)) s in if is_digit c then rest else acc

-- `parseInt(s, 10)` of a part of a host name, which begins with no sign and no white space.
unfoldable pub parse_int : String → Option ℕ
unfolding read_digits
parse_int [] = none
parse_int (c ∷ s) = if is_digit c then some (read_digits 0 (c ∷ s)) else none

-- `second >= lo && second <= hi`, which `NaN` is not.
unfoldable pub lies_between : ℕ → ℕ → Option ℕ → Bool
lies_between lo hi none = false
lies_between lo hi (some n) = leb lo n && leb n hi

module _ (lower : String → String) where
  unfoldable pub is_publicly_accessed : String → Bool
  unfolding is_ip second_part parse_int lies_between
  is_publicly_accessed host =
      let second = parse_int (second_part host) in
      if host is ""
      then false
      else if not (is_ip host)
      then false
      else if host is "127.0.0.1" || host is "::1" || starts_with host "127."
      then false
      else if starts_with host "10."
      then false
      else if starts_with host "192.168."
      then false
      else if starts_with host "169.254."
      then false
      else if starts_with host "172." && lies_between 16 31 second
      then false
      else if starts_with host "100." && lies_between 64 127 second
      then false
      else if starts_with (lower host) "fc" || starts_with (lower host) "fd"
      then false
      else not (
          starts_with (lower host) "fe8"
          || starts_with (lower host) "fe9"
          || starts_with (lower host) "fea"
          || starts_with (lower host) "feb")
