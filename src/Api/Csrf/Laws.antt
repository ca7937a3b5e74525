-- ===== src/Api/Csrf/Laws.antt =====
-- `readCsrfCookie` of web/src/lib/csrf.ts on the cookie jars that a browser shows.
use Prim.Native.String.{[], ◌∷◌}
use mathlib.Core.List
use text.Mathlib.TextLemmas.{nil-append, cons-append}
use control_room.Base.{
  Char, code, String, List, Option, none, some, ◌<>◌, after_prefix, ◌≡◌, ◌≢◌, refl, ap, ◌∙◌, arith,
  All,
}
use control_room.Api.Csrf.{
  csrf_target, push_head, split_cookies, find_token, raw_token, read_csrf_cookie,
}

-- A cookie's text holds no semicolon.
abbrev pub NoSemicolon : String → Type 0
NoSemicolon [] = Unit
NoSemicolon (c ∷ s) = (code c ≢ b';') × NoSemicolon s

-- `document.cookie` for a list of cookies.
pub join_cookies : List String → String
join_cookies List.[] = []
join_cookies (List.◌∷◌ p List.[]) = p
join_cookies (List.◌∷◌ p (List.◌∷◌ q ps)) = p <> "; " <> join_cookies (List.◌∷◌ q ps)

split-push :
    (c : Char) (s : String) → code c ≢ b';' → split_cookies (c ∷ s) ≡ push_head c (split_cookies s)
unfolding split_cookies
split-push c [] h = refl
split-push c (d ∷ s) h = ground arith

split-separator :
    (p rest : String)
    → NoSemicolon p
    → split_cookies (p <> "; " <> rest) ≡ List.◌∷◌ p (split_cookies rest)
unfolding split_cookies
split-separator [] rest h = rw (nil-append, cons-append, cons-append, nil-append)
split-separator (c ∷ p) rest (q, h) =
    rw cons-append
      (split-push c (p <> "; " <> rest) q ∙ ap (push_head c) (split-separator p rest h))

split-plain : (p : String) → NoSemicolon p → split_cookies p ≡ List.◌∷◌ p List.[]
unfolding split_cookies
split-plain [] h = refl
split-plain (c ∷ p) (q, h) = split-push c p q ∙ ap (push_head c) (split-plain p h)

-- Splitting gives back the cookies that were joined, where none holds a semicolon.
pub split_cookies-join_cookies :
    (p : String) (ps : List String)
    → All NoSemicolon (List.◌∷◌ p ps)
    → split_cookies (join_cookies (List.◌∷◌ p ps)) ≡ List.◌∷◌ p ps
unfolding join_cookies
split_cookies-join_cookies p List.[] (h, hs) = split-plain p h
split_cookies-join_cookies p (List.◌∷◌ q ps) (h, hs) =
    split-separator p (join_cookies (List.◌∷◌ q ps)) h
    ∙ ap (List.◌∷◌ p) (split_cookies-join_cookies q ps hs)

after_prefix-append : (t s : String) → after_prefix t (t <> s) ≡ some s
after_prefix-append [] s = rw nil-append
after_prefix-append (c ∷ t) s = rw cons-append (ground (arith, after_prefix-append t s))

-- Neither of these cookies is the token's.
abbrev pub IsOther : String → Type 0
IsOther p = after_prefix csrf_target p ≡ none

find_token-skip :
    (before : List String) (value : String) (after : List String)
    → All IsOther before
    → find_token (List.◌++◌ before (List.◌∷◌ (csrf_target <> value) after)) ≡ some value
unfolding find_token
find_token-skip List.[] value after h = rw (after_prefix-append csrf_target value, find_token)
find_token-skip (List.◌∷◌ p before) value after (o, h) =
    rw (o, find_token) (find_token-skip before value after h)

raw_token-join :
    (before : List String) (value : String) (after : List String)
    → All NoSemicolon (List.◌++◌ before (List.◌∷◌ (csrf_target <> value) after))
    → All IsOther before
    → raw_token (join_cookies (List.◌++◌ before (List.◌∷◌ (csrf_target <> value) after)))
      ≡ some value
unfolding raw_token
raw_token-join List.[] value after clean o =
    ap find_token (split_cookies-join_cookies (csrf_target <> value) after clean)
    ∙ find_token-skip List.[] value after tt
raw_token-join (List.◌∷◌ p before) value after clean o =
    ap find_token (
      split_cookies-join_cookies p (List.◌++◌ before (List.◌∷◌ (csrf_target <> value) after)) clean)
    ∙ find_token-skip (List.◌∷◌ p before) value after o

-- From any cookie jar that has a token, and in which no cookie's text holds a semicolon, the first
-- token is read and decoded, whatever cookies stand before and behind it.
pub read_csrf_cookie-join :
    (decode : String → Option String) (before : List String) (value : String) (after : List String)
    → All NoSemicolon (List.◌++◌ before (List.◌∷◌ (csrf_target <> value) after))
    → All IsOther before
    → read_csrf_cookie decode
        (join_cookies (List.◌++◌ before (List.◌∷◌ (csrf_target <> value) after)))
      ≡ decode value
unfolding read_csrf_cookie
read_csrf_cookie-join decode before value after clean o =
    rw (raw_token-join before value after clean o, read_csrf_cookie)

find_token-none : (ps : List String) → All IsOther ps → find_token ps ≡ none
unfolding find_token
find_token-none List.[] o = refl
find_token-none (List.◌∷◌ p ps) (o, os) = rw (o, find_token) (find_token-none ps os)

-- A cookie jar without a token, in which no cookie's text holds a semicolon, gives the empty text.
pub read_csrf_cookie-missing :
    (decode : String → Option String) (p : String) (ps : List String)
    → All NoSemicolon (List.◌∷◌ p ps)
    → All IsOther (List.◌∷◌ p ps)
    → read_csrf_cookie decode (join_cookies (List.◌∷◌ p ps)) ≡ some ""
unfolding read_csrf_cookie
read_csrf_cookie-missing decode p ps clean o = rw (
  ap find_token (split_cookies-join_cookies p ps clean) ∙ find_token-none (List.◌∷◌ p ps) o,
  read_csrf_cookie,
)
