-- ===== src/Containers/Env/Hidden.antt =====
-- What the environment of a container shows of the values of its sensitive keys.
use control_room.Base.{
  String, Bool, true, false, List, [], ◌∷◌, map, any, Option, none, some, ◌is◌, ◌<>◌, ◌≡◌, refl,
  arith, ap, ◌∙◌, eq_iff, Bool-cases, inl, inr,
}
use control_room.Containers.Entry.{split_entry, occurs}
use control_room.Containers.Entry.Laws.{
  entry, has_equals, spelled, split_entry-spelled, split_entry-join, same_letters, occurs-append,
}
use control_room.Containers.Env.{words, is_sensitive, Line, line_of, lines}

-- The key has one of the words as a part, in whatever case.
pub record HasWord (key : String) : Type 0 where
  pub before : String
  pub part : String
  pub behind : String
  pub word : String
  pub parts : key ≡ before <> (part <> behind)
  pub listed : any (λ w. w is word) words ≡ true
  pub spelled : same_letters word part ≡ true

any-intro :
    (p : String → Bool) (w : String) (ws : List String)
    → any (λ v. v is w) ws ≡ true
    → p w ≡ true
    → any p ws ≡ true
any-intro p w [] h k = h
any-intro p w (v ∷ vs) h k = elim (Bool-cases (v is w)) [
  | inl same ↦ ground (arith, k, ap p ((eq_iff v w).0 same))
  | inr other ↦ ground (arith, h, other, any-intro p w vs)
]

pub HasWord-is_sensitive : (key : String) → HasWord key → is_sensitive key ≡ true
unfolding is_sensitive
HasWord-is_sensitive key h =
    any-intro (λ w. occurs w key) h.word words h.listed
      (rw h.parts (occurs-append h.word h.before h.part h.behind h.spelled))

-- Two environments that differ only in values of keys that have one of the words.
pub data SameButSecrets : List String → List String → Type 0 where
  end : SameButSecrets [] []
  same :
      (e : String) (xs ys : List String) → SameButSecrets xs ys → SameButSecrets (e ∷ xs) (e ∷ ys)
  secret :
      (k v w : String) (xs ys : List String)
      → has_equals k ≡ false
      → HasWord k
      → SameButSecrets xs ys
      → SameButSecrets (entry k v ∷ xs) (entry k w ∷ ys)

line_of-dots : (k v e : String) → HasWord k → line_of false (some (k, v)) e ≡ Line.dots k
unfolding line_of
line_of-dots k v e h = rw (HasWord-is_sensitive k h) refl

line_of-join :
    (k v : String)
    → has_equals k ≡ false
    → HasWord k
    → let e = entry k v in line_of false (split_entry e) e ≡ Line.dots k
line_of-join k v n h =
    let e = entry k v in ap (λ o. line_of false o e) (split_entry-join k v n) ∙ line_of-dots k v e h

-- As long as nothing is revealed, what is shown of an environment does not depend on the value of any
-- key that has one of the words PASSWORD, SECRET, TOKEN, KEY, API and CREDENTIAL as a part, in whatever
-- case.
pub secrets_hidden : (xs ys : List String) → SameButSecrets xs ys → lines false xs ≡ lines false ys
unfolding lines
secrets_hidden _ _ end = refl
secrets_hidden _ _ (same e xs ys r) =
    ap (λ ls. line_of false (split_entry e) e ∷ ls) (secrets_hidden xs ys r)
secrets_hidden _ _ (secret k v w xs ys n h r) =
    rw (line_of-join k v n h, line_of-join k w n h)
      (ap (λ ls. Line.dots k ∷ ls) (secrets_hidden xs ys r))

-- What a line spells, where its value is shown.
abbrev pub text_of : Line → String
text_of (Line.whole e) = e
text_of (Line.pair k v) = entry k v
text_of (Line.dots k) = k

revealed-text_of :
    (o : Option (String × String)) (e : String) → text_of (line_of true o e) ≡ spelled o e
unfolding line_of
revealed-text_of none e = refl
revealed-text_of (some (k, v)) e = ground arith

-- Once the secrets are revealed, the lines spell the environment entry by entry.
pub revealed_lines : (env : List String) → map text_of (lines true env) ≡ env
unfolding lines
revealed_lines [] = refl
revealed_lines (e ∷ env) =
    rw (revealed-text_of (split_entry e) e, split_entry-spelled e)
      (ap (λ es. e ∷ es) (revealed_lines env))
