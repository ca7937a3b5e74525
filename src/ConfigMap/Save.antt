-- ===== src/ConfigMap/Save.antt =====
-- What a save of web/src/components/k8s/ConfigMapDetail.tsx sends, against the rows of the editor.
use control_room.Base.{
  String, false, List, [], ◌∷◌, Option, none, some, ◌is◌, ◌≡◌, ◌≢◌, refl, ◌∙◌, arith, eq_iff,
  eq_refl, if◌then◌else◌, is_some, All, inl, inr, Bool-cases,
}
use control_room.ConfigMap.Entries.{
  DataEntry, Object, lookup, assign, build_from, build_data, duplicates_from, duplicate_keys, has,
  add,
}

lookup-assign :
    (k j v : String) (o : Object)
    → lookup j (assign k v o)
      ≡ (if k is "__proto__" then lookup j o else if k is j then some v else lookup j o)
unfolding assign
lookup-assign k j v [] = ground (arith, eq_iff k j)
lookup-assign k j v ((i, w) ∷ o) =
    ground (arith, eq_iff k j, eq_iff i k, eq_iff i j, lookup-assign k j v o)

-- The value of the last row with a key.
pub last_value : String → List DataEntry → Option String
last_value k [] = none
last_value k (e ∷ es) =
    let later = last_value k es in
    if is_some later then later else if e.key is k then some e.value else none

lookup-build_from :
    (k : String) (o : Object) (es : List DataEntry)
    → k ≢ "__proto__"
    → lookup k (build_from o es)
      ≡ (if is_some (last_value k es) then last_value k es else lookup k o)
unfolding build_from last_value
lookup-build_from k o [] h = refl
lookup-build_from k o (e ∷ es) h = ground (
  arith,
  lookup-build_from k (assign e.key e.value o) es h,
  lookup-assign e.key k e.value o,
  eq_iff e.key k,
  eq_iff e.key "__proto__",
)

-- What is saved under a key, `__proto__` apart, is the value of the last row with that key.
pub lookup-build_data :
    (k : String) (es : List DataEntry)
    → k ≢ "__proto__"
    → lookup k (build_data es) ≡ last_value k es
unfolding build_data
lookup-build_data k es h = lookup-build_from k [] es h ∙ unchanged (last_value k es)
  where
    unchanged : (v : Option String) → (if is_some v then v else none) ≡ v
    unchanged none = refl
    unchanged (some x) = refl

lookup-build_from_proto :
    (o : Object) (es : List DataEntry)
    → lookup "__proto__" o ≡ none
    → lookup "__proto__" (build_from o es) ≡ none
unfolding build_from
lookup-build_from_proto o [] h = h
lookup-build_from_proto o (e ∷ es) h =
    lookup-build_from_proto (assign e.key e.value o) es
      (ground (arith, lookup-assign e.key "__proto__" e.value o, eq_iff e.key "__proto__"))

-- A row with the key `__proto__` is never saved, though the editor's pattern accepts the key.
pub proto_never_saved : (es : List DataEntry) → lookup "__proto__" (build_data es) ≡ none
unfolding build_data
proto_never_saved es = lookup-build_from_proto [] es refl

-- No two rows have the same key.
abbrev pub Distinct : List DataEntry → Type 0
Distinct [] = Unit
Distinct (e ∷ es) = All (λ f. (e.key is f.key) ≡ false) es × Distinct es

add-ne-nil : (k : String) (s : List String) → add k s ≢ []
add-ne-nil k [] e = cc
add-ne-nil k (j ∷ s) e = ground arith

split_seen :
    (k : String) (seen : List String) (es : List DataEntry)
    → has k seen ≡ false
    → All (λ f. has f.key (add k seen) ≡ false) es
    → All (λ f. has f.key seen ≡ false) es × All (λ f. (k is f.key) ≡ false) es
split_seen k seen [] h hs = (tt, tt)
split_seen k seen (f ∷ es) h (g, gs) =
    let (a, b) = split_seen k seen es h gs in ((ground arith, a), (ground arith, b))

duplicates_from-nil :
    (seen dupes : List String) (es : List DataEntry)
    → duplicates_from seen dupes es ≡ []
    → (dupes ≡ []) × All (λ e. has e.key seen ≡ false) es × Distinct es
unfolding duplicates_from
duplicates_from-nil seen dupes [] h = (h, tt, tt)
duplicates_from-nil seen dupes (e ∷ es) h =
    let (no_more, unseen, distinct) =
      duplicates_from-nil (add e.key seen) (if has e.key seen then add e.key dupes else dupes) es
        h in
    elim (Bool-cases (has e.key seen)) [
      | inl old ↦ absurd (add-ne-nil e.key dupes (rw old at no_more))
      | inr new ↦
          let (a, b) = split_seen e.key seen es new unseen in
          (rw new at no_more, (new, a), (b, distinct))
    ]

pub duplicate_keys-Distinct : (es : List DataEntry) → duplicate_keys es ≡ [] → Distinct es
unfolding duplicate_keys
duplicate_keys-Distinct es h = (duplicates_from-nil [] [] es h).2

last_value-other :
    (k : String) (es : List DataEntry) → All (λ f. (k is f.key) ≡ false) es → last_value k es ≡ none
unfolding last_value
last_value-other k [] h = refl
last_value-other k (f ∷ es) (p, h) =
    ground (arith, last_value-other k es h, eq_iff f.key k, eq_iff k f.key)

-- A row of the editor.
pub data Row (e : DataEntry) : List DataEntry → Type 0 where
  here : {es : List DataEntry} → Row e (e ∷ es)
  below : {f : DataEntry} {es : List DataEntry} → Row e es → Row e (f ∷ es)

Row-other :
    {e : DataEntry} {es : List DataEntry} (k : String)
    → Row e es
    → All (λ f. (k is f.key) ≡ false) es
    → (k is e.key) ≡ false
Row-other k here (p, h) = p
Row-other k (below r) (p, h) = Row-other k r h

last_value-Row :
    {e : DataEntry} {es : List DataEntry}
    → Row e es
    → Distinct es
    → last_value e.key es ≡ some e.value
unfolding last_value
last_value-Row {e} (here {es}) (p, d) = ground (arith, last_value-other e.key es p, eq_refl e.key)
last_value-Row {e} (below {f} {es} r) (p, d) =
    ground (arith, last_value-Row r d, Row-other f.key r p)

-- Where the editor finds no duplicate key, every row is saved with its value, unless its key is
-- `__proto__`.
pub every-Row_saved :
    {e : DataEntry} (es : List DataEntry)
    → duplicate_keys es ≡ []
    → Row e es
    → e.key ≢ "__proto__"
    → lookup e.key (build_data es) ≡ some e.value
every-Row_saved {e} es clean r h =
    lookup-build_data e.key es h ∙ last_value-Row r (duplicate_keys-Distinct es clean)
