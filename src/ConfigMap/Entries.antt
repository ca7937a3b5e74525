-- ===== src/ConfigMap/Entries.antt =====
-- The pure parts of web/src/components/k8s/ConfigMapDetail.tsx: from the object of a config map to the
-- rows of the editor and back, and the two tests on the keys.
use Prim.Native.String.{[] as nil, ◌∷◌ as ◌∷ₛ◌}
use control_room.Base.{
  ℕ, ◌+◌, Char, code, String, Bool, true, false, not, ◌&&◌, ◌||◌, List, [], ◌∷◌, Option, none, some,
  ◌is◌, ◌==◌, leb, if◌then◌else◌, map, keep, Ordering,
}

pub record DataEntry : Type 0 where
  pub key : String
  pub value : String

-- A JavaScript object with text values, as the list of its own entries.
abbrev pub Object : Type 0
Object = List (String × String)

-- `a.localeCompare(b)` by its sign, and `JSON.stringify` of rows.
pub record Locale : Type 0 where
  pub locale_compare : String → String → Ordering
  pub stringify : List DataEntry → String

abbrev pub lookup : String → Object → Option String
lookup k [] = none
lookup k ((j, v) ∷ o) = if j is k then some v else lookup k o

set_own : String → String → Object → Object
set_own k v [] = (k, v) ∷ []
set_own k v ((j, w) ∷ o) = if j is k then (k, v) ∷ o else (j, w) ∷ set_own k v o

-- `o[k] = v` for a text `v`. A text assigned to `__proto__` is ignored: it is no prototype.
unfoldable pub assign : String → String → Object → Object
unfolding set_own
assign k v o = if k is "__proto__" then o else set_own k v o

-- The loop of `confirmSave`.
unfoldable pub build_from : Object → List DataEntry → Object
build_from o [] = o
build_from o (e ∷ es) = build_from (assign e.key e.value o) es

unfoldable pub build_data : List DataEntry → Object
unfolding build_from
build_data es = build_from [] es

abbrev is_gt : Ordering → Bool
is_gt Ordering.gt = true
is_gt _ = false

module _ (locale : Locale) where
  open locale use {locale_compare, stringify}

  -- `sort` with `localeCompare` on the keys, which is stable.
  unfoldable pub insert_entry : DataEntry → List DataEntry → List DataEntry
  insert_entry x [] = x ∷ []
  insert_entry x (y ∷ ys) =
      if is_gt (locale_compare x.key y.key) then y ∷ insert_entry x ys else x ∷ y ∷ ys

  unfoldable pub sort_entries : List DataEntry → List DataEntry
  unfolding insert_entry
  sort_entries [] = []
  sort_entries (x ∷ xs) = insert_entry x (sort_entries xs)

  unfoldable pub data_to_entries : Object → List DataEntry
  unfolding sort_entries
  data_to_entries o = sort_entries (map (λ p. record { key = p.0; value = p.1 }) o)

  unfoldable pub entries_to_sorted_json : List DataEntry → String
  unfolding sort_entries
  entries_to_sorted_json es = stringify (sort_entries es)

abbrev pub has : String → List String → Bool
has k [] = false
has k (j ∷ js) = j is k || has k js

-- `s.add(k)`
abbrev pub add : String → List String → List String
add k s = if has k s then s else k ∷ s

-- The loop that finds the keys that stand in more than one row.
unfoldable pub duplicates_from : List String → List String → List DataEntry → List String
duplicates_from seen dupes [] = dupes
duplicates_from seen dupes (e ∷ es) =
    duplicates_from (add e.key seen) (if has e.key seen then add e.key dupes else dupes) es

unfoldable pub duplicate_keys : List DataEntry → List String
unfolding duplicates_from
duplicate_keys es = duplicates_from [] [] es

abbrev pub is_key_char : Char → Bool
is_key_char c =
    let n = code c in
    (leb b'a' n && leb n b'z')
    || (leb b'A' n && leb n b'Z')
    || (leb b'0' n && leb n b'9')
    || n == b'.'
    || n == b'_'
    || n == b'-'

abbrev pub all_key_chars : String → Bool
all_key_chars nil = true
all_key_chars (c ∷ₛ s) = is_key_char c && all_key_chars s

-- `KEY_PATTERN.test(k)` for /^[a-zA-Z0-9._-]+$/
unfoldable pub matches_key_pattern : String → Bool
matches_key_pattern k = not (k is "") && all_key_chars k

unfoldable pub invalid_keys : List DataEntry → List String
unfolding matches_key_pattern
invalid_keys es =
    map (λ e. e.key) (keep (λ e. not (e.key is "") && not (matches_key_pattern e.key)) es)

-- `totalBytes`: `size` is the number of bytes of a text in UTF-8.
unfoldable pub total_bytes : (String → ℕ) → List DataEntry → ℕ
total_bytes size [] = 0
total_bytes size (e ∷ es) = size e.value + total_bytes size es
