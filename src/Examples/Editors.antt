-- ===== src/Examples/Editors.antt =====
-- Concrete runs of the editors of config maps and manifests.
use control_room.Base.{
  true, false, not, List, [], ◌∷◌, none, some, ◌≡◌, refl, arith, eq_iff, Ordering, map, all, ◌&&◌,
  ◌++◌,
}
use control_room.ConfigMap
use control_room.ConfigMap.{
  Update, detail_loaded, update_value, press_save, confirm, open_editor, add_entry, update_key,
  load, select, save_enabled, takes_input,
}
use control_room.ConfigMap.Entries.{
  DataEntry, Locale, lookup, build_data, duplicate_keys, invalid_keys, matches_key_pattern, assign,
  data_to_entries, entries_to_sorted_json,
}
use control_room.ConfigMap.Save.{here, below, every-Row_saved}
use control_room.ConfigMap.Rows.{is_unmarked, key_invalid, key_dupe, save_enabled-marks}
use control_room.ConfigMap.Rows.Blank.{blank, blank_key_saved}
use control_room.ConfigMap.Guard.{Sends, updates_clean, save_before_load, kept_rows_saved}
use control_room.Manifest
use control_room.Manifest.{
  Gvk, Editor, mount, fetch_settled, typed, press_dry_run, press_apply, confirm_apply, succeeded,
  failed, conflict, api_failure, apply, applied, dry_run, can_apply, dirty, sync, run_apply,
  settled, after_edit,
}
use control_room.Manifest.Laws.{apply_cycle, request_of}

-- A locale that takes all keys for equal, and writes rows as their number of values.
abbrev locale : Locale
locale = record {
  locale_compare = λ a b. Ordering.eq;
  stringify = λ es. elim es [ [] ↦ "[]" | e ∷ _ ↦ e.value ];
}

abbrev rows : List DataEntry
rows = record { key = "a"; value = "1" } ∷ record { key = "b"; value = "2" } ∷ []

every-Row_saved_example : lookup "b" (build_data rows) ≡ some "2"
unfolding duplicate_keys
every-Row_saved_example =
    every-Row_saved rows refl (below here) (ground (arith, eq_iff "b" "__proto__"))

-- The pattern accepts the key that is lost.
proto_is_valid : matches_key_pattern "__proto__" ≡ true
unfolding matches_key_pattern
proto_is_valid = refl

abbrev session : List ConfigMap.Event
session = detail_loaded (("a", "1") ∷ []) ∷ update_value 0 "2" ∷ press_save ∷ confirm ∷ []

one_update :
    (ConfigMap.run locale session (open_editor (some "default") (some "app"))).sent
    ≡ record { namespace = "default"; name = "app"; data_sent = ("a", "2") ∷ [] } ∷ []
unfolding ConfigMap.run ConfigMap.step save_enabled takes_input open_editor build_data
    duplicate_keys invalid_keys load data_to_entries ConfigMap.modify_at entries_to_sorted_json
    assign
one_update = refl

-- The same up to the question.
abbrev asking : List ConfigMap.Event
asking = detail_loaded (("a", "1") ∷ []) ∷ update_value 0 "2" ∷ press_save ∷ []

updates_clean_example :
    let s = ConfigMap.run locale asking (open_editor (some "default") (some "app")) in
    Sends s (ConfigMap.step locale confirm s)
unfolding duplicate_keys invalid_keys data_to_entries
updates_clean_example =
    updates_clean locale (some "default") (some "app") asking confirm ((refl, refl), tt)

save_before_load_example :
    (ConfigMap.run locale
      (press_save ∷ confirm ∷ [])
      (open_editor (some "default") (some "app"))).sent
    ≡ record { namespace = "default"; name = "app"; data_sent = [] } ∷ []
save_before_load_example =
    save_before_load locale "default" "app" (ground (arith, eq_iff "default" ""))
      (ground (arith, eq_iff "app" ""))

save_enabled-marks_example :
    let s = ConfigMap.run locale session (open_editor (some "default") (some "app")) in
    ConfigMap.save_enabled locale s
    ≡ not s.is_pending && ConfigMap.dirty locale s && all (is_unmarked s.entries) s.entries
save_enabled-marks_example =
    save_enabled-marks locale
      (ConfigMap.run locale session (open_editor (some "default") (some "app")))

-- A row without a key beside another one, where nothing was loaded but an empty object.
abbrev with_blank : ConfigMap.Editor
with_blank = record {
  namespace = some "default";
  name = some "app";
  is_loaded = true;
  entries = rows ++ blank "lost" ∷ [];
  original_json = "[]";
  confirm_open = false;
  save_error = none;
  save_success = false;
  conflict_error = false;
  is_pending = false;
  sent = [];
}

blank_key_saved_example :
    let t = ConfigMap.run locale (press_save ∷ confirm ∷ []) with_blank in
    (t.sent
      ≡ []
        ++ record { namespace = "default"; name = "app"; data_sent = build_data with_blank.entries }
          ∷ [])
    × (lookup "" (build_data with_blank.entries) ≡ some "lost")
unfolding ConfigMap.dirty entries_to_sorted_json key_invalid key_dupe duplicate_keys
    matches_key_pattern
blank_key_saved_example =
    blank_key_saved locale "default" "app" "lost" with_blank refl refl
      (ground (arith, eq_iff "default" "")) (ground (arith, eq_iff "app" "")) refl refl refl
      (below (below here))

-- Another config map is selected.
kept_rows_saved_example :
    (ConfigMap.run locale
      (select (some "default") (some "other") ∷ press_save ∷ confirm ∷ [])
      with_blank).sent
    ≡ []
      ++ record { namespace = "default"; name = "other"; data_sent = build_data with_blank.entries }
        ∷ []
unfolding save_enabled ConfigMap.can_save ConfigMap.dirty entries_to_sorted_json duplicate_keys
    invalid_keys matches_key_pattern
kept_rows_saved_example =
    kept_rows_saved locale "default" "other" with_blank (ground (arith, eq_iff "default" ""))
      (ground (arith, eq_iff "other" "")) refl refl

abbrev config_map : Gvk
config_map = record { group = ""; version = "v1"; kind = "ConfigMap" }

-- A manifest is loaded and edited.
abbrev edited : Editor
unfolding Manifest.run Manifest.step
edited =
    Manifest.run
      (fetch_settled (some (record { yaml = "a: 1"; resource_version = "5"; gvk = config_map }))
        ∷ typed (some "a: 2")
        ∷ [])
      mount

abbrev asked : Editor
unfolding Manifest.run Manifest.step
asked = Manifest.run (press_apply ∷ []) edited

apply_cycle_example :
    let t =
      Manifest.step
        (succeeded "6" [])
        (Manifest.run (map typed (some "a: 3" ∷ [])) (Manifest.step confirm_apply asked)) in
    (t.original_yaml ≡ asked.edited_yaml)
    × (t.resource_version ≡ "6")
    × (t.in_flight ≡ none)
    × (t.sent ≡ request_of apply asked ∷ asked.sent)
    × (t.status ≡ applied [])
    × (t.edited_yaml ≡ "a: 3")
unfolding asked edited Manifest.run Manifest.step
apply_cycle_example = apply_cycle asked (some "a: 3" ∷ []) "6" [] refl refl
