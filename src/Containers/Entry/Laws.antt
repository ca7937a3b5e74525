-- ===== src/Containers/Entry/Laws.antt =====
-- Entries that are put together and taken apart again, and where a word occurs in a key.
use Prim.Native.String.{[], ◌∷◌}
use text.Mathlib.TextLemmas.{nil-append, cons-append}
use text.Mathlib.TextEquality.{Char-path}
use mathlib.Core.Option
use control_room.Base.{
  String, Char, code, Bool, true, false, ◌&&◌, ◌||◌, Option, none, some, ◌<>◌, ◌==◌, ◌≡◌, refl,
  arith, ap, sym, ◌∙◌, Bool-cases, inl, inr,
}
use control_room.Containers.Entry.{put_front, split_entry, fold_case, begins, occurs}

abbrev pub equals_sign : Char
equals_sign = "="

abbrev pub entry : String → String → String
entry k v = k <> (equals_sign ∷ v)

unfoldable pub has_equals : String → Bool
has_equals [] = false
has_equals (c ∷ s) = code c == 61 || has_equals s

-- The entry of a key without an equals sign comes apart into that key and the value, whatever the value is.
pub split_entry-join : (k v : String) → has_equals k ≡ false → split_entry (entry k v) ≡ some (k, v)
unfolding split_entry has_equals
split_entry-join [] v h = rw nil-append refl
split_entry-join (c ∷ k) v h = rw cons-append (ground (arith, h, split_entry-join k v))

-- Equal but for the case of ASCII letters.
unfoldable pub same_letters : String → String → Bool
same_letters [] [] = true
same_letters [] (d ∷ s) = false
same_letters (c ∷ w) [] = false
same_letters (c ∷ w) (d ∷ s) = let rest = same_letters w s in fold_case c == fold_case d && rest

begins-append : (w x b : String) → same_letters w x ≡ true → begins w (x <> b) ≡ true
unfolding begins same_letters
begins-append [] [] b h = refl
begins-append [] (d ∷ x) b h = absurd (ground (arith, h))
begins-append (c ∷ w) [] b h = absurd (ground (arith, h))
begins-append (c ∷ w) (d ∷ x) b h = rw cons-append (ground (arith, h, begins-append w x b))

begins-split :
    (w s : String)
    → begins w s ≡ true
    → (x : String) × (b : String) × (s ≡ x <> b) × (same_letters w x ≡ true)
unfolding begins same_letters
begins-split [] s h = ("", s, sym (nil-append s), refl)
begins-split (c ∷ w) [] h = absurd (ground (arith, h))
begins-split (c ∷ w) (d ∷ s) h =
    let (x, b, e, m) = begins-split w s (ground (arith, h)) in
    (d ∷ x, b, ap (λ t. d ∷ t) e ∙ sym (cons-append d x b), ground (arith, h, m))

-- A word occurs in a text exactly when the text has a part that is the word but for its case.
pub occurs-split :
    (w s : String)
    → occurs w s ≡ true
    → (a : String) × (x : String) × (b : String) × (s ≡ a <> (x <> b)) × (same_letters w x ≡ true)
unfolding occurs
occurs-split w [] h =
    let (x, b, e, m) = begins-split w [] h in ("", x, b, e ∙ sym (nil-append (x <> b)), m)
occurs-split w (c ∷ s) h = elim (Bool-cases (begins w (c ∷ s))) [
  | inl now ↦
      let (x, b, e, m) = begins-split w (c ∷ s) now in ("", x, b, e ∙ sym (nil-append (x <> b)), m)
  | inr later ↦
      let (a, x, b, e, m) = occurs-split w s (ground (arith, h, later)) in
      (c ∷ a, x, b, ap (λ t. c ∷ t) e ∙ sym (cons-append c a (x <> b)), m)
]

begins-occurs : (w s : String) → begins w s ≡ true → occurs w s ≡ true
unfolding occurs
begins-occurs w [] h = h
begins-occurs w (c ∷ s) h = ground (arith, h)

pub occurs-append : (w a x b : String) → same_letters w x ≡ true → occurs w (a <> (x <> b)) ≡ true
unfolding occurs
occurs-append w [] x b h =
    rw (nil-append (x <> b)) (begins-occurs w (x <> b) (begins-append w x b h))
occurs-append w (c ∷ a) x b h = rw cons-append (ground (arith, occurs-append w a x b h))

-- What the parts of an entry spell.
abbrev pub spelled : Option (String × String) → String → String
spelled none s = s
spelled (some (k, v)) s = entry k v

put_front-spelled :
    (c : Char) (s : String) (o : Option (String × String))
    → spelled o s ≡ s
    → spelled (Option.map (put_front c) o) (c ∷ s) ≡ c ∷ s
put_front-spelled c s none h = refl
put_front-spelled c s (some (k, v)) h = cons-append c k (equals_sign ∷ v) ∙ ap (λ t. c ∷ t) h

-- An entry that comes apart is the two parts with an equals sign between them.
pub split_entry-spelled : (s : String) → spelled (split_entry s) s ≡ s
unfolding split_entry
split_entry-spelled [] = refl
split_entry-spelled (c ∷ s) = elim (Bool-cases (code c == 61)) [
  | inl here ↦ rw here (
      nil-append (equals_sign ∷ s)
      ∙ ap (λ d. d ∷ s) (Char-path equals_sign c (ground (arith, here))))
  | inr later ↦ rw later (put_front-spelled c s (split_entry s) (split_entry-spelled s))
]
