-- ===== src/Api/Csrf.antt =====
-- web/src/lib/csrf.ts: the CSRF token that the server leaves in a readable cookie.
use Prim.Native.String.{[], ◌∷◌}
pub mod Laws
use control_room.Base.{
  Char, code, String, true, false, ◌&&◌, List, Option, none, some, ◌==◌, after_prefix,
}

-- The name of the cookie, with the `=` behind it.
abbrev pub csrf_target : String
csrf_target = "cr_csrf="

-- `c` in front of the first piece.
abbrev pub push_head : Char → List String → List String
push_head c List.[] = List.◌∷◌ (c ∷ []) List.[]
push_head c (List.◌∷◌ p ps) = List.◌∷◌ (c ∷ p) ps

-- `s.split('; ')`
unfoldable pub split_cookies : String → List String
split_cookies [] = List.◌∷◌ [] List.[]
split_cookies (c ∷ []) = List.◌∷◌ (c ∷ []) List.[]
split_cookies (c ∷ d ∷ s) = elim (code c == b';' && code d == b' ') [
  | true ↦ List.◌∷◌ [] (split_cookies s)
  | false ↦ push_head c (split_cookies (d ∷ s))
]

-- The loop over the cookies: what stands behind the first `cr_csrf=`.
unfoldable pub find_token : List String → Option String
find_token List.[] = none
find_token (List.◌∷◌ part parts) = elim (after_prefix csrf_target part) [
  | some value ↦ some value
  | none ↦ find_token parts
]

-- The token before it is decoded; `none` where no cookie has the name.
unfoldable pub raw_token : String → Option String
unfolding split_cookies find_token
raw_token cookie = find_token (split_cookies cookie)

-- `readCsrfCookie()` where `document.cookie` is `cookie`. `decode` is `decodeURIComponent`, and its
-- `none` is the `URIError` that it throws on a malformed text.
unfoldable pub read_csrf_cookie : (String → Option String) → String → Option String
unfolding raw_token
read_csrf_cookie decode cookie = elim (raw_token cookie) [
  | some value ↦ decode value
  | none ↦ some ""
]
