-- ===== src/Layout/Banner/Texts.antt =====
-- Names of hosts made of digits and dots, under the tests of web/src/components/PublicBindBanner.tsx.
use Prim.Native.String.{[], ◌∷◌}
use text.Mathlib.TextLemmas.{nil-append, cons-append}
use control_room.Base.{
  String, Char, code, Bool, true, false, ◌&&◌, ◌||◌, Option, none, some, ◌is◌, ◌<>◌, ◌==◌,
  if◌then◌else◌, after_prefix, ◌≡◌, refl, ap, ◌∙◌, arith, eq_iff,
}
use control_room.Setup.Strength.{is_digit}
use control_room.Setup.{all_chars}
use control_room.Layout.Banner.{is_dotted, until_dot, after_dot, starts_with}

-- Equal letter by letter.
unfoldable pub same_text : String → String → Bool
same_text [] [] = true
same_text [] (d ∷ t) = false
same_text (c ∷ s) [] = false
same_text (c ∷ s) (d ∷ t) = let rest = same_text s t in code c == code d && rest

abbrev pub IsDigits : String → Type 0
IsDigits s = all_chars is_digit s ≡ true

unfoldable pub then_prefix : String → Option String → Option String
then_prefix b none = none
then_prefix b (some y) = after_prefix b y

pub after_prefix-append :
    (a b x : String) → after_prefix (a <> b) x ≡ then_prefix b (after_prefix a x)
unfolding then_prefix
after_prefix-append [] b x = rw nil-append refl
after_prefix-append (c ∷ a) b [] = rw cons-append refl
after_prefix-append (c ∷ a) b (d ∷ x) = rw cons-append (ground (arith, after_prefix-append a b x))

pub after_prefix-part :
    (t s : String) (d : Char) (r : String)
    → IsDigits t
    → IsDigits s
    → code d ≡ 46
    → after_prefix (t <> ".") (s <> (d ∷ r)) ≡ (if same_text t s then some r else none)
unfolding all_chars same_text
after_prefix-part [] [] d r h k e = rw (nil-append, nil-append) (ground (arith, e))
after_prefix-part [] (c ∷ s) d r h k e = rw (nil-append, cons-append) (ground (arith, k))
after_prefix-part (c ∷ t) [] d r h k e = rw (cons-append, nil-append) (ground (arith, h, e))
after_prefix-part (c ∷ t) (b ∷ s) d r h k e =
    rw (cons-append, cons-append) (ground (arith, h, k, e, after_prefix-part t s d r))

pub until_dot-part :
    (s : String) (d : Char) (r : String) → IsDigits s → code d ≡ 46 → until_dot (s <> (d ∷ r)) ≡ s
unfolding until_dot all_chars
until_dot-part [] d r h e = rw nil-append (ground (arith, e))
until_dot-part (c ∷ s) d r h e = rw cons-append (ground (arith, e, h, until_dot-part s d r))

pub after_dot-part :
    (s : String) (d : Char) (r : String) → IsDigits s → code d ≡ 46 → after_dot (s <> (d ∷ r)) ≡ r
unfolding after_dot all_chars
after_dot-part [] d r h e = rw nil-append (ground (arith, e))
after_dot-part (c ∷ s) d r h e = rw cons-append (ground (arith, e, h, after_dot-part s d r))

pub dotted-part :
    (s : String) (d : Char) (r : String)
    → IsDigits s
    → code d ≡ 46
    → all_chars is_dotted r ≡ true
    → all_chars is_dotted (s <> (d ∷ r)) ≡ true
unfolding all_chars
dotted-part [] d r h e k = rw nil-append (ground (arith, e, k))
dotted-part (c ∷ s) d r h e k = rw cons-append (ground (arith, e, h, k, dotted-part s d r))

-- No text of digits and dots is blank after a dot, an IPv6 address, or begins with a letter.
unfoldable pub has_dot : String → Bool
has_dot [] = false
has_dot (c ∷ s) = code c == 46 || has_dot s

pub has_dot-part :
    (s : String) (d : Char) (r : String) → code d ≡ 46 → has_dot (s <> (d ∷ r)) ≡ true
unfolding has_dot
has_dot-part [] d r e = rw nil-append (ground (arith, e))
has_dot-part (c ∷ s) d r e = rw cons-append (ground (arith, has_dot-part s d r e))

pub not_blank : (x : String) → has_dot x ≡ true → (x is "") ≡ false
unfolding has_dot
not_blank x h = ground (arith, eq_iff x "", λ (p : Path String x ""). ap has_dot p ∙ refl, h)

pub no_letters :
    (x : String)
    → all_chars is_dotted x ≡ true
    → (after_prefix "fc" x ≡ none)
      × (after_prefix "fd" x ≡ none)
      × (after_prefix "fe8" x ≡ none)
      × (after_prefix "fe9" x ≡ none)
      × (after_prefix "fea" x ≡ none)
      × (after_prefix "feb" x ≡ none)
unfolding all_chars
no_letters [] h = (refl, refl, refl, refl, refl, refl)
no_letters (c ∷ s) h =
    (ground arith, ground arith, ground arith, ground arith, ground arith, ground arith)

pub no_ipv6 : (x : String) → all_chars is_dotted x ≡ true → (x is "::1") ≡ false
unfolding all_chars
no_ipv6 x h =
    ground (arith, eq_iff x "::1", λ (p : Path String x "::1"). ap (all_chars is_dotted) p)

pub loopback : (x : String) → (x is "127.0.0.1") ≡ true → starts_with x "127." ≡ true
loopback x h = rw ((eq_iff x "127.0.0.1").0 h) refl
