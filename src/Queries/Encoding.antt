-- ===== src/Queries/Encoding.antt =====
-- The two encodings of JavaScript that the paths are built with: `encodeURIComponent`, and the text of
-- a `URLSearchParams`.
use Prim.Native.String.{[] as nil, ◌∷◌ as ◌∷ₛ◌}
use text.Mathlib.TextLemmas
use control_room.Base.{
  ℕ, zero, suc, ◌+◌, ◌/◌, ◌%◌, String, code, Bool, true, false, ◌&&◌, ◌||◌, List, [], ◌∷◌, All, ltb,
  leb, ◌==◌, ◌<>◌, if◌then◌else◌, ◌≡◌, refl, arith, Bool-cases, inl, inr,
}

abbrev pub hex_digits : List String
hex_digits =
    "0" ∷ "1" ∷ "2" ∷ "3" ∷ "4" ∷ "5" ∷ "6" ∷ "7" ∷ "8" ∷ "9" ∷ "A" ∷ "B" ∷ "C" ∷ "D" ∷ "E" ∷ "F"
    ∷ []

unfoldable pub nth_digit : ℕ → List String → String
nth_digit n [] = "0"
nth_digit zero (d ∷ ds) = d
nth_digit (suc n) (d ∷ ds) = nth_digit n ds

-- One hexadecimal digit, in upper case.
unfoldable pub hex : ℕ → String
unfolding nth_digit
hex n = nth_digit n hex_digits

unfoldable pub percent : ℕ → String
unfolding hex
percent b = "%" <> hex (b / 16) <> hex (b % 16)

-- A character in UTF-8, each byte as `%` with two digits.
unfoldable pub percent_utf8 : ℕ → String
unfolding percent
percent_utf8 n =
    if ltb n 128
    then percent n
    else if ltb n 2048
    then percent (192 + n / 64) <> percent (128 + n % 64)
    else if ltb n 65_536
    then percent (224 + n / 4096) <> percent (128 + n / 64 % 64) <> percent (128 + n % 64)
    else percent (240 + n / 262_144)
      <> percent (128 + n / 4096 % 64)
      <> percent (128 + n / 64 % 64)
      <> percent (128 + n % 64)

abbrev pub is_alphanumeric : ℕ → Bool
is_alphanumeric n = (leb 97 n && leb n 122) || (leb 65 n && leb n 90) || (leb 48 n && leb n 57)

-- A letter, a digit, or one of - _ . ! ~ * ' ( )
abbrev pub is_unreserved : ℕ → Bool
is_unreserved n =
    is_alphanumeric n
    || n == 45
    || n == 95
    || n == 46
    || n == 33
    || n == 126
    || n == 42
    || n == 39
    || n == 40
    || n == 41

-- `encodeURIComponent(s)`
unfoldable pub encode : String → String
unfolding percent_utf8
encode nil = ""
encode (c ∷ₛ s) =
    let rest = encode s in
    if is_unreserved (code c) then c ∷ₛ rest else percent_utf8 (code c) <> rest

-- A value of a `URLSearchParams`: a space is a `+`, and of the signs - _ . * alone stay.
unfoldable pub form_encode : String → String
unfolding percent_utf8
form_encode nil = ""
form_encode (c ∷ₛ s) =
    let rest = form_encode s in
    if code c == 32
    then "+" <> rest
    else if is_alphanumeric (code c) || code c == 45 || code c == 95 || code c == 46 || code c == 42
    then c ∷ₛ rest
    else percent_utf8 (code c) <> rest

-- Every character of `s` can stand inside one segment of a path or one value of a query string.
unfoldable pub is_segment : String → Bool
is_segment nil = true
is_segment (c ∷ₛ s) = (is_unreserved (code c) || code c == 37) && is_segment s

is_segment-append : (s t : String) → is_segment (s <> t) ≡ is_segment s && is_segment t
unfolding is_segment
is_segment-append nil t = rw (TextLemmas.nil-append t) refl
is_segment-append (c ∷ₛ s) t =
    rw (TextLemmas.cons-append c s t) (ground (arith, is_segment-append s t))

nth_digit-is_segment :
    (n : ℕ) (ds : List String)
    → All (λ d. is_segment d ≡ true) ds
    → is_segment (nth_digit n ds) ≡ true
unfolding nth_digit is_segment
nth_digit-is_segment n [] h = refl
nth_digit-is_segment zero (d ∷ ds) (h, hs) = h
nth_digit-is_segment (suc n) (d ∷ ds) (h, hs) = nth_digit-is_segment n ds hs

hex-is_segment : (n : ℕ) → is_segment (hex n) ≡ true
unfolding is_segment hex
hex-is_segment n = nth_digit-is_segment n hex_digits (
  refl,
  (
    refl,
    (
      refl,
      (
        refl,
        (
          refl,
          (
            refl,
            (refl, (refl, (refl, (refl, (refl, (refl, (refl, (refl, (refl, (refl, tt)))))))))),
          ),
        ),
      ),
    ),
  ),
)

join-is_segment :
    (s t : String) → is_segment s ≡ true → is_segment t ≡ true → is_segment (s <> t) ≡ true
join-is_segment s t h k = ground (arith, is_segment-append s t)

if-is_segment :
    (b : Bool) (s t : String)
    → is_segment s ≡ true
    → is_segment t ≡ true
    → is_segment (if b then s else t) ≡ true
if-is_segment true s t h k = h
if-is_segment false s t h k = k

percent-is_segment : (n : ℕ) → is_segment (percent n) ≡ true
unfolding percent is_segment
percent-is_segment n = join-is_segment "%" (hex (n / 16) <> hex (n % 16)) refl (
    join-is_segment (hex (n / 16)) (hex (n % 16)) (hex-is_segment (n / 16))
      (hex-is_segment (n % 16)))

percent_utf8-is_segment : (n : ℕ) → is_segment (percent_utf8 n) ≡ true
unfolding percent_utf8
percent_utf8-is_segment n = if-is_segment (ltb n 128) _ _ (percent-is_segment n) (
    if-is_segment (ltb n 2048) _ _
      (join-is_segment _ _ (percent-is_segment (192 + n / 64)) (percent-is_segment (128 + n % 64)))
      (if-is_segment (ltb n 65_536) _ _
        (join-is_segment _ _ (percent-is_segment (224 + n / 4096)) (
          join-is_segment _ _ (percent-is_segment (128 + n / 64 % 64))
            (percent-is_segment (128 + n % 64))))
        (join-is_segment _ _ (percent-is_segment (240 + n / 262_144)) (
          join-is_segment _ _ (percent-is_segment (128 + n / 4096 % 64)) (
            join-is_segment _ _ (percent-is_segment (128 + n / 64 % 64))
              (percent-is_segment (128 + n % 64)))))))

-- Whatever a name holds, its encoding consists of unreserved characters and percent signs: it has no
-- slash, question mark, number sign or ampersand that would end the segment or the value it stands in.
pub encode-is_segment : (s : String) → is_segment (encode s) ≡ true
unfolding encode is_segment
encode-is_segment nil = refl
encode-is_segment (c ∷ₛ s) = elim (Bool-cases (is_unreserved (code c))) [
  | inl plain ↦ rw plain (ground (arith, encode-is_segment s))
  | inr other ↦ rw other (
      join-is_segment (percent_utf8 (code c)) (encode s) (percent_utf8-is_segment (code c))
        (encode-is_segment s))
]
