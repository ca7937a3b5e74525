-- ===== src/ConfigMap.antt =====
-- web/src/components/k8s/ConfigMapDetail.tsx: the editor of a config map's keys and values, with
-- `useUpdateConfigMap` of web/src/lib/k8s.ts.
pub mod Entries
pub mod Guard
pub mod Rows
pub mod Save
use control_room.Base.{
  ℕ, zero, suc, String, Bool, true, false, not, ◌&&◌, List, [], ◌∷◌, ◌++◌, Option, none, some, ◌is◌,
  ◌==◌, if◌then◌else◌, is_some,
}
use control_room.ConfigMap.Entries.{
  DataEntry, Locale, Object, data_to_entries, entries_to_sorted_json, build_data, duplicate_keys,
  invalid_keys,
}

-- What the sheet is opened for, and what the editor holds. `is_loaded` says whether the detail of this
-- config map is there; its rows are rendered only then. `sent` are the updates that it asked for.
pub record Update : Type 0 where
  pub namespace : String
  pub name : String
  pub data_sent : Object

pub record Editor : Type 0 where
  pub namespace : Option String
  pub name : Option String
  pub is_loaded : Bool
  pub entries : List DataEntry
  pub original_json : String
  pub confirm_open : Bool
  pub save_error : Option String
  pub save_success : Bool
  pub conflict_error : Bool
  pub is_pending : Bool
  pub sent : List Update

-- How an update fails: an `ApiError` with its status and message, another `Error`, or anything else.
pub data Failure : Type 0 where
  api_failure : ℕ → String → Failure
  other_error : String → Failure
  no_error : Failure

-- `select` is the page's choice of another config map, or of none when the sheet is closed: the component
-- stays, with its rows.
pub data Event : Type 0 where
  select : Option String → Option String → Event
  detail_loaded : Object → Event
  update_key update_value : ℕ → String → Event
  remove_entry : ℕ → Event
  add_entry press_save cancel confirm saved : Event
  save_failed : Failure → Event

-- `prev.map((e, i) => i === idx ? f(e) : e)`
unfoldable pub modify_at : ℕ → (DataEntry → DataEntry) → List DataEntry → List DataEntry
modify_at i f [] = []
modify_at zero f (e ∷ es) = f e ∷ es
modify_at (suc i) f (e ∷ es) = e ∷ modify_at i f es

-- `prev.filter((_, i) => i !== idx)`
unfoldable pub remove_at : ℕ → List DataEntry → List DataEntry
remove_at i [] = []
remove_at zero (e ∷ es) = es
remove_at (suc i) (e ∷ es) = e ∷ remove_at i es

-- `namespace && …`: null and the empty text are falsy.
abbrev truthy : Option String → Option String
truthy none = none
truthy (some s) = if s is "" then none else some s

unfoldable pub open_editor : Option String → Option String → Editor
open_editor namespace name = record {
  namespace = namespace;
  name = name;
  is_loaded = false;
  entries = [];
  original_json = "";
  confirm_open = false;
  save_error = none;
  save_success = false;
  conflict_error = false;
  is_pending = false;
  sent = [];
}

abbrev pub is_empty {ℓ} : {A : Type ℓ} → List A → Bool
is_empty [] = true
is_empty (x ∷ xs) = false

module _ (locale : Locale) where
  unfoldable pub dirty : Editor → Bool
  dirty s =
      if is_empty s.entries
      then not (s.original_json is "[]")
      else not (entries_to_sorted_json locale s.entries is s.original_json)

  unfoldable pub can_save : Editor → Bool
  unfolding dirty
  can_save s = dirty s && is_empty (duplicate_keys s.entries) && is_empty (invalid_keys s.entries)

  -- The button is not disabled.
  unfoldable pub save_enabled : Editor → Bool
  unfolding can_save
  save_enabled s = can_save s && not s.is_pending

  -- The rows take input: they are rendered, and no confirmation is open.
  unfoldable pub takes_input : Editor → Bool
  takes_input s = s.is_loaded && not s.confirm_open

  -- `updateEntry` for one field.
  edited : ℕ → (DataEntry → DataEntry) → Editor → Editor
  edited i f s = record s {
    entries = modify_at i f s.entries;
    save_error = none;
    save_success = false;
  }

  -- The effect that runs when the detail loads or reloads.
  unfoldable pub load : Object → Editor → Editor
  load o s =
      let initial = data_to_entries locale o in
      record s {
        is_loaded = true;
        entries = initial;
        original_json = entries_to_sorted_json locale initial;
        save_error = none;
        save_success = false;
        conflict_error = false;
      }

  confirmed : Option String → Option String → Editor → Editor
  confirmed (some namespace) (some name) s = record s {
    confirm_open = false;
    is_pending = true;
    sent =
        s.sent
        ++ record { namespace = namespace; name = name; data_sent = build_data s.entries } ∷ [];
  }
  confirmed _ _ s = record s { confirm_open = false }

  failed : Failure → Editor → Editor
  failed (api_failure status message) s =
      if status == 409
      then record s { is_pending = false; conflict_error = true; save_error = none }
      else record s { is_pending = false; save_error = some message; conflict_error = false }
  failed (other_error message) s = record s {
    is_pending = false;
    save_error = some message;
    conflict_error = false;
  }
  failed no_error s = record s {
    is_pending = false;
    save_error = some "Save failed.";
    conflict_error = false;
  }

  -- While the confirmation is open it takes all input; a load and an answer can come at any time.
  unfoldable pub step : Event → Editor → Editor
  unfolding save_enabled takes_input edited load confirmed failed
  step (select namespace name) s =
      if s.confirm_open
      then s
      else record s { namespace = namespace; name = name; is_loaded = false }
  step (detail_loaded o) s = load o s
  step (update_key i key) s = if takes_input s then edited i (λ e. record e { key = key }) s else s
  step (update_value i value) s =
      if takes_input s then edited i (λ e. record e { value = value }) s else s
  step (remove_entry i) s =
      if takes_input s then record s { entries = remove_at i s.entries } else s
  step add_entry s =
      if takes_input s
      then record s { entries = s.entries ++ record { key = ""; value = "" } ∷ [] }
      else s
  step press_save s = if save_enabled s then record s { confirm_open = true } else s
  step cancel s = record s { confirm_open = false }
  step confirm s = if s.confirm_open then confirmed (truthy s.namespace) (truthy s.name) s else s
  step saved s = record s {
    is_pending = false;
    save_success = true;
    save_error = none;
    conflict_error = false;
  }
  step (save_failed f) s = failed f s

  unfoldable pub run : List Event → Editor → Editor
  run [] s = s
  run (e ∷ es) s = run es (step e s)
