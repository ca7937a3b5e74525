-- ===== src/Shell/Exec.antt =====
-- The pickers of web/src/components/k8s/PodExecModal.tsx: which container and command the next
-- socket is opened for.
use control_room.Base.{
  ℕ, suc, String, Bool, true, false, List, [], ◌∷◌, ◌is◌, if◌then◌else◌, ◌≡◌, ◌≢◌, refl, arith,
  eq_iff,
}

-- The first frame of an exec socket.
pub record ExecInit : Type 0 where
  pub rows : ℕ
  pub cols : ℕ
  pub container : String
  pub command : List String

pub record Picker : Type 0 where
  pub selected_container : String
  pub selected_command : String
  pub custom_command : String
  pub use_custom : Bool
  -- how often the pickers asked for a new socket
  pub generation : ℕ

pub data Pick : Type 0 where
  container command typed : String → Pick
  commit : Pick

abbrev pub custom_option : String
custom_option = "__custom__"

abbrev pub default_command : String
default_command = "/bin/sh"

unfoldable pub open_picker : String → Picker
open_picker initial = record {
  selected_container = initial;
  selected_command = default_command;
  custom_command = "";
  use_custom = false;
  generation = 0;
}

-- `trim` is `String.prototype.trim`.
module _ (trim : String → String) where
  -- `resolvedCommand`: `customCommand.trim() || '/bin/sh'`, or the selected one.
  unfoldable pub resolved_command : Picker → String
  resolved_command p =
      if p.use_custom
      then (if trim p.custom_command is "" then default_command else trim p.custom_command)
      else p.selected_command

  abbrev bump : Picker → Picker
  bump p = record p { generation = suc p.generation }

  -- `handleContainerChange`, `handleCommandChange`, the input's `onChange` and
  -- `handleCustomCommandCommit`.
  unfoldable pub pick : Pick → Picker → Picker
  pick (container name) p = bump (record p { selected_container = name })
  pick (command val) p =
      if val is custom_option
      then record p { use_custom = true }
      else bump (record p { use_custom = false; selected_command = val })
  pick (typed text) p = record p { custom_command = text }
  pick commit p = if trim p.custom_command is "" then p else bump p

  unfoldable pub picks : List Pick → Picker → Picker
  picks [] p = p
  picks (e ∷ es) p = picks es (pick e p)

  -- What `ws.onopen` sends for a picker.
  unfoldable pub exec_init : ℕ → ℕ → Picker → ExecInit
  unfolding resolved_command
  exec_init rows cols p = record {
    rows = rows;
    cols = cols;
    container = p.selected_container;
    command = resolved_command p ∷ [];
  }

  -- The values that the command's `<select>` offers are not empty.
  abbrev pub IsOffered : Pick → Type 0
  IsOffered (command val) = val ≢ ""
  IsOffered _ = Unit

  abbrev pub AllOffered : List Pick → Type 0
  AllOffered [] = Unit
  AllOffered (e ∷ es) = IsOffered e × AllOffered es

  pick-selected :
      (e : Pick) (p : Picker)
      → IsOffered e
      → p.selected_command ≢ ""
      → (pick e p).selected_command ≢ ""
  unfolding pick
  pick-selected (container name) p o h = h
  pick-selected (command val) p o h = ground arith
  pick-selected (typed text) p o h = h
  pick-selected commit p o h = ground arith

  picks-selected :
      (es : List Pick) (p : Picker)
      → AllOffered es
      → p.selected_command ≢ ""
      → (picks es p).selected_command ≢ ""
  unfolding picks
  picks-selected [] p o h = h
  picks-selected (e ∷ es) p (o, os) h = picks-selected es (pick e p) os (pick-selected e p o h)

  resolved_command-ne : (p : Picker) → p.selected_command ≢ "" → resolved_command p ≢ ""
  unfolding resolved_command
  resolved_command-ne p h = ground (arith, eq_iff (trim p.custom_command) "", eq_iff "/bin/sh" "")

  -- Whatever is picked from the offered commands and typed as a custom one, the command that an exec
  -- socket is opened with is one text, and not the empty one.
  pub command_never_empty :
      (initial : String) (es : List Pick) (rows cols : ℕ)
      → AllOffered es
      → (c : String) × ((exec_init rows cols (picks es (open_picker initial))).command ≡ c ∷ [])
        × (c ≢ "")
  unfolding exec_init open_picker
  command_never_empty initial es rows cols o =
      let p = picks es (open_picker initial) in
      (
        resolved_command p,
        refl,
        resolved_command-ne p
            (picks-selected es (open_picker initial) o (ground (arith, eq_iff "/bin/sh" ""))),
      )
