-- ===== src/ConfigMap/Rows.antt =====
-- The marks beside the rows of the editor in web/src/components/k8s/ConfigMapDetail.tsx, and when it can
-- be saved.
pub mod Blank
use control_room.Base.{
  ℕ, String, Bool, true, false, not, ◌&&◌, ◌||◌, List, [], ◌∷◌, map, keep, any, all, ◌is◌,
  if◌then◌else◌, ◌≡◌, refl, arith, ap, ◌∙◌, ◌⊎◌, inl, inr, Bool-cases, eq_iff, eq_refl, sym,
}
use control_room.ConfigMap.Entries.{
  DataEntry, Locale, has, add, duplicates_from, duplicate_keys, invalid_keys, matches_key_pattern,
}
use control_room.ConfigMap.{Editor, is_empty, dirty, can_save, save_enabled}

-- `keyInvalid` and `keyDupe` of a row.
unfoldable pub key_invalid : DataEntry → Bool
unfolding matches_key_pattern
key_invalid e = not (e.key is "") && not (matches_key_pattern e.key)

unfoldable pub key_dupe : List DataEntry → DataEntry → Bool
key_dupe es e = has e.key (duplicate_keys es)

-- No mark stands beside the row.
abbrev pub is_unmarked : List DataEntry → DataEntry → Bool
is_unmarked es e = not (key_dupe es e) && not (key_invalid e)

all-and :
    (p q : DataEntry → Bool) (es : List DataEntry) → all (λ e. p e && q e) es ≡ all p es && all q es
all-and p q [] = refl
all-and p q (e ∷ es) = ground (arith, all-and p q es)

is_empty-invalid_keys :
    (es : List DataEntry) → is_empty (invalid_keys es) ≡ all (λ e. not (key_invalid e)) es
unfolding invalid_keys key_invalid
is_empty-invalid_keys [] = refl
is_empty-invalid_keys (e ∷ es) = ground (arith, is_empty-invalid_keys es)

has-add :
    (k j : String) (s : List String) → has k (add j s) ≡ true → (has k s ≡ true) ⊎ ((j is k) ≡ true)
has-add k j s h = elim (Bool-cases (has j s)) [
  | inl old ↦ inl (ground (arith, h, old))
  | inr new ↦ elim (Bool-cases (j is k)) [
    | inl same ↦ inr same
    | inr other ↦ inl (ground (arith, h, new, other))
  ]
]

-- A key that is found twice is one of the keys.
duplicates_from-any :
    (k : String) (seen dupes : List String) (es : List DataEntry)
    → has k (duplicates_from seen dupes es) ≡ true
    → (has k dupes ≡ true) ⊎ (any (λ e. e.key is k) es ≡ true)
unfolding duplicates_from
duplicates_from-any k seen dupes [] h = inl h
duplicates_from-any k seen dupes (e ∷ es) h =
    let ih =
      duplicates_from-any k (add e.key seen) (if has e.key seen then add e.key dupes else dupes) es
        h in
    ground (arith, ih, has-add k e.key dupes)

all_marked :
    (k : String) (ds : List String) (es : List DataEntry)
    → has k ds ≡ true
    → any (λ e. e.key is k) es ≡ true
    → all (λ e. not (has e.key ds)) es ≡ false
all_marked k ds [] h a = absurd (ground (arith, a))
all_marked k ds (e ∷ es) h a = elim (Bool-cases (e.key is k)) [
  | inl same ↦ rw ((eq_iff e.key k).0 same) (rw h refl)
  | inr other ↦ ground (arith, a, other, all_marked k ds es h)
]

none_marked :
    (ds : List String) (es : List DataEntry)
    → is_empty ds ≡ true
    → all (λ e. not (has e.key ds)) es ≡ true
none_marked [] [] h = refl
none_marked [] (e ∷ es) h = none_marked [] es h
none_marked (d ∷ ds) es h = absurd (ground (arith, h))

is_empty-duplicates :
    (es : List DataEntry) (ds : List String)
    → duplicate_keys es ≡ ds
    → is_empty ds ≡ all (λ e. not (has e.key ds)) es
is_empty-duplicates es [] h = sym (none_marked [] es refl)
is_empty-duplicates es (k ∷ ds) h =
    elim (duplicates_from-any k [] [] es (unfold duplicate_keys in found)) [
      | inl never ↦ absurd (ground (arith, never))
      | inr row ↦ sym (all_marked k (k ∷ ds) es (rw (eq_refl k) refl) row)
    ]
  where
    found : has k (duplicate_keys es) ≡ true
    found = rw h (rw (eq_refl k) refl)

-- The rows let the editor be saved exactly when it is dirty and no mark stands beside any of them.
pub can_save-marks :
    (locale : Locale) (s : Editor)
    → can_save locale s ≡ dirty locale s && all (is_unmarked s.entries) s.entries
unfolding can_save key_dupe
can_save-marks locale s =
    let es = s.entries in
    let d = is_empty-duplicates es (duplicate_keys es) refl in
    let i = is_empty-invalid_keys es in
    let both = all-and (λ e. not (has e.key (duplicate_keys es))) (λ e. not (key_invalid e)) es in
    ground (arith, d, i, both)

-- The button Save is enabled exactly when no update is pending, the editor is dirty, and no mark stands
-- beside any row.
pub save_enabled-marks :
    (locale : Locale) (s : Editor)
    → save_enabled locale s
      ≡ not s.is_pending && dirty locale s && all (is_unmarked s.entries) s.entries
unfolding save_enabled
save_enabled-marks locale s = ground (arith, can_save-marks locale s)
