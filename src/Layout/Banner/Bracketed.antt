-- ===== src/Layout/Banner/Bracketed.antt =====
-- Hosts whose name is an IPv6 address, which a URL holds in brackets.
use Prim.Native.String.{[], ◌∷◌}
use control_room.Base.{
  ℕ, String, Char, code, true, false, ◌is◌, includes, ◌≡◌, ap, arith, eq_iff, ◌≢◌,
}
use control_room.Layout.Banner.{is_ip, is_publicly_accessed}

holds_colon : (c : Char) (w : String) → includes w ":" ≡ true → includes (c ∷ w) ":" ≡ true
unfolding includes
holds_colon c w k = ground (arith, k)

-- The code of the first character, for texts that have one.
first_code : String → ℕ
first_code [] = 0
first_code (c ∷ s) = code c

differs : (c : Char) (w t : String) → code c ≢ first_code t → ((c ∷ w) is t) ≡ false
unfolding first_code
differs c w t h =
    ground (arith, eq_iff (c ∷ w) t, λ (p : Path String (c ∷ w) t). h (ap first_code p))

-- Where `toLowerCase` leaves a bracket as it is, the page warns of a public address whenever the name of
-- its host begins with a bracket and holds a colon, as the name of every IPv6 address does: of the
-- loopback address, and of unique-local and link-local addresses, which the tests for them never see.
pub bracketed_is_public :
    (lower : String → String) (c : Char) (w : String)
    → code c ≡ 91
    → lower (c ∷ w) ≡ c ∷ lower w
    → includes w ":" ≡ true
    → is_publicly_accessed lower (c ∷ w) ≡ true
unfolding is_publicly_accessed is_ip first_code
bracketed_is_public lower c w b h k =
    rw
      (
        h,
        holds_colon c w k,
        differs c w "" (λ e. absurd (omega (arith, b, e))),
        differs c w "127.0.0.1" (λ e. absurd (omega (arith, b, e))),
        differs c w "::1" (λ e. absurd (omega (arith, b, e))),
      )
      (ground (arith, b))
