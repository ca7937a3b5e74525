-- ===== src/Layout/Banner/Dotted.antt =====
-- Hosts whose name is an IPv4 address, against the ranges of private addresses.
use Prim.Native.String.{◌∷◌}
use control_room.Base.{
  ℕ, leb, String, Char, code, Bool, true, false, not, ◌&&◌, ◌||◌, Option, none, some, ◌is◌, ◌<>◌,
  ◌≡◌, refl, ap, ◌∙◌, arith,
}
use control_room.Setup.{all_chars}
use control_room.Layout.Banner.{
  is_dotted, is_publicly_accessed, until_dot, second_part, lies_between, parse_int, starts_with,
}
use control_room.Layout.Banner.Texts.{
  same_text, IsDigits, then_prefix, after_prefix-append, after_prefix-part, until_dot-part,
  after_dot-part, dotted-part, has_dot-part, not_blank, no_letters, no_ipv6, loopback,
}

-- A part that is a number from `lo` to `hi`.
unfoldable pub within : ℕ → ℕ → Option ℕ → Bool
within lo hi none = false
within lo hi (some n) = leb lo n && leb n hi

-- An address whose first two numbers are `a` and `b` is a loopback, private, link-local or shared one.
unfoldable pub is_private : String → String → Bool
unfolding same_text within parse_int
is_private a b =
    same_text "127" a
    || same_text "10" a
    || (same_text "192" a && same_text "168" b)
    || (same_text "169" a && same_text "254" b)
    || (same_text "172" a && within 16 31 (parse_int b))
    || (same_text "100" a && within 64 127 (parse_int b))

-- A prefix of one number, and one of two, of an address that begins with the numbers `a` and `b`.
module _ (a b : String) (d : Char) (r : String) (ha : IsDigits a) (hb : IsDigits b)
    (e : code d ≡ 46) where
  host : String
  host = a <> (d ∷ (b <> (d ∷ r)))

  one_part : (t : String) → IsDigits t → starts_with host (t <> ".") ≡ same_text t a
  unfolding host
  one_part t ht = rw (after_prefix-part t a d (b <> (d ∷ r)) ht ha e) (ground arith)

  two_parts :
      (t u : String)
      → IsDigits t
      → IsDigits u
      → starts_with host ((t <> ".") <> (u <> ".")) ≡ same_text t a && same_text u b
  unfolding host then_prefix
  two_parts t u ht hu =
      rw
        (
          after_prefix-append (t <> ".") (u <> ".") host,
          after_prefix-part t a d (b <> (d ∷ r)) ht ha e,
        )
        (ground (arith, after_prefix-part u b d r hu hb e))

  second_part-host : second_part host ≡ b
  unfolding second_part host
  second_part-host =
      ap until_dot (after_dot-part a d (b <> (d ∷ r)) ha e) ∙ until_dot-part b d r hb e

  module _ (hr : all_chars is_dotted r ≡ true) where
    host-dotted : all_chars is_dotted host ≡ true
    unfolding host
    host-dotted = dotted-part a d (b <> (d ∷ r)) ha e (dotted-part b d r hb e hr)

    host-filled : (host is "") ≡ false
    unfolding host
    host-filled = not_blank host (has_dot-part a d (b <> (d ∷ r)) e)

  prefixes :
      (starts_with host "127." ≡ same_text "127" a)
      × (starts_with host "10." ≡ same_text "10" a)
      × (starts_with host "192.168." ≡ same_text "192" a && same_text "168" b)
      × (starts_with host "169.254." ≡ same_text "169" a && same_text "254" b)
      × (starts_with host "172." ≡ same_text "172" a)
      × (starts_with host "100." ≡ same_text "100" a)
  unfolding all_chars
  prefixes = (
    one_part "127" refl,
    one_part "10" refl,
    two_parts "192" "168" refl refl,
    two_parts "169" "254" refl refl,
    one_part "172" refl,
    one_part "100" refl,
  )

lies_between-within : (lo hi : ℕ) (o : Option ℕ) → lies_between lo hi o ≡ within lo hi o
unfolding lies_between within
lies_between-within lo hi none = refl
lies_between-within lo hi (some n) = refl

-- Where `toLowerCase` leaves the name of the host as it is, the page warns of an address that begins
-- with the decimal numbers `a` and `b`, each followed by a dot, and goes on with digits and dots, exactly
-- when `a` and `b` do not make it a loopback, private, link-local or shared address.
pub dotted_is_public :
    (lower : String → String) (a b : String) (d : Char) (r : String)
    → IsDigits a
    → IsDigits b
    → code d ≡ 46
    → all_chars is_dotted r ≡ true
    → lower (a <> (d ∷ (b <> (d ∷ r)))) ≡ a <> (d ∷ (b <> (d ∷ r)))
    → is_publicly_accessed lower (a <> (d ∷ (b <> (d ∷ r)))) ≡ not (is_private a b)
unfolding is_publicly_accessed is_private host
dotted_is_public lower a b d r ha hb e hr h =
    let x = host a b d r ha hb e in
    let dotted = host-dotted a b d r ha hb e hr in
    let l = no_letters x dotted in
    let p = prefixes a b d r ha hb e in
    rw
      (
        h,
        host-filled a b d r ha hb e hr,
        dotted,
        no_ipv6 x dotted,
        second_part-host a b d r ha hb e,
        l.0,
        l.1,
        l.2,
        l.3,
        l.4,
        l.5,
      )
      (ground (arith, loopback x, p))
