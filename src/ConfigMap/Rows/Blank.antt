-- ===== src/ConfigMap/Rows/Blank.antt =====
-- A row without a key in the editor of web/src/components/k8s/ConfigMapDetail.tsx.
use control_room.Base.{
  String, true, false, List, [], ◌∷◌, ◌++◌, some, all, ◌is◌, ◌≡◌, ◌≢◌, refl, arith, ◌∙◌, ap, eq_iff,
}
use control_room.ConfigMap.Entries.{DataEntry, Locale, lookup, build_data, duplicate_keys}
use control_room.ConfigMap.{Editor, press_save, confirm, is_empty, dirty, can_save, step, run}
use control_room.ConfigMap.Save.{Row, every-Row_saved}
use control_room.ConfigMap.Rows.{is_unmarked, can_save-marks}

abbrev pub blank : String → DataEntry
blank v = record { key = ""; value = v }

is_empty-nil : (xs : List String) → is_empty xs ≡ true → xs ≡ []
is_empty-nil [] h = refl
is_empty-nil (x ∷ xs) h = absurd (ground (arith, h))

can_save-clean :
    (locale : Locale) (s : Editor)
    → can_save locale s ≡ true
    → is_empty (duplicate_keys s.entries) ≡ true
unfolding can_save
can_save-clean locale s h = ground (arith, h)

-- A row without a key bears no mark. Where the editor is dirty and no other row has a mark, pressing Save
-- and confirming sends an update that has the row's value under the empty key.
pub blank_key_saved :
    (locale : Locale) (namespace name v : String) (s : Editor)
    → s.namespace ≡ some namespace
    → s.name ≡ some name
    → namespace ≢ ""
    → name ≢ ""
    → s.is_pending ≡ false
    → dirty locale s ≡ true
    → all (is_unmarked s.entries) s.entries ≡ true
    → Row (blank v) s.entries
    → let t = run locale (press_save ∷ confirm ∷ []) s in
      (t.sent
        ≡ s.sent
          ++ record { namespace = namespace; name = name; data_sent = build_data s.entries } ∷ [])
      × (lookup "" (build_data s.entries) ≡ some v)
unfolding run step
blank_key_saved locale namespace name v s hs hn ns nn p d m r = (
  ground (arith, hs, hn, eq_iff namespace "", eq_iff name "", p, allowed),
  every-Row_saved s.entries
      (is_empty-nil (duplicate_keys s.entries) (can_save-clean locale s allowed)) r
      (λ e. ground (arith, ap (λ (t : String). t is "") e)),
)
  where
    allowed : can_save locale s ≡ true
    allowed = can_save-marks locale s ∙ rw d m
