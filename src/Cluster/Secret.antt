-- ===== src/Cluster/Secret.antt =====
-- web/src/components/k8s/SecretDetail.tsx: the sheet that shows a secret, with its values masked until
-- they are revealed. `parse_pretty` is `JSON.parse` with `JSON.stringify(…, null, 2)`, `none` where it
-- throws, and `locale_compare` the sign of `localeCompare`.
pub mod Reveal
pub mod Hiding
use control_room.Base.{
  ℕ, String, Bool, true, false, not, ◌&&◌, ◌||◌, List, [], ◌∷◌, map, Option, none, some, ◌is◌, ltb,
  if◌then◌else◌, is_some, or_default, after_prefix, includes, Ordering, sort_by, insert_sorted,
}
use control_room.Containers.{is_gt}
use control_room.Setup.Strength.{length16}
use control_room.Queries.K8sTypes.{K8sSecretDetail}

abbrev pub mask : String
mask = "••••••••"

unfoldable pub is_tls_like : String → Bool
unfolding includes
is_tls_like v = includes v "-----BEGIN" || (ltb 200 (length16 v) && includes v "\n")

unfoldable pub type_label : String → String
type_label t = or_default (after_prefix "kubernetes.io/" t) t

-- What the browser offers for copying: the outcome of `clipboard.writeText`, where it exists, and of
-- `execCommand('copy')`, where it does not throw.
pub record Clipboard : Type 0 where
  pub write_text : Option Bool
  pub exec_command : Option Bool

unfoldable pub copy_fallback : Option Bool → Bool
copy_fallback none = false
copy_fallback (some ok) = ok

unfoldable pub copy_to_clipboard : Clipboard → Bool
unfolding copy_fallback
copy_to_clipboard c = elim c.write_text [
  | none ↦ copy_fallback c.exec_command
  | some ok ↦ if ok then true else copy_fallback c.exec_command
]

pub data CopyState : Type 0 where
  idle copied copy_failed : CopyState

-- `SecretRow`
pub record Row : Type 0 where
  pub secret_key : String
  pub value : String
  pub revealed : Bool
  pub copy_state : CopyState

pub record View : Type 0 where
  pub secret : Option (String × String)
  pub reveal_all : Bool
  pub detail : Option K8sSecretDetail
  pub rows : List Row

-- What a cell shows: the mask, a text in its own block, or a text in the line.
pub data Shown : Type 0 where
  masked : Shown
  block inline : String → Shown

-- `select` is the page's choice of a secret, which opens the sheet; `close` is what the sheet reports.
pub data Event : Type 0 where
  select : String → String → Event
  close : Event
  loaded : K8sSecretDetail → Event
  press_all : Event
  press_row : String → Event
  copy : String → Clipboard → Event
  copy_timeout : String → Event

abbrev pub closed_view : View
closed_view = record { secret = none; reveal_all = false; detail = none; rows = [] }

-- The rows with the key `k` changed by `f`.
unfoldable pub at_key : (Row → Row) → String → List Row → List Row
at_key f k [] = []
at_key f k (r ∷ rs) = (if r.secret_key is k then f r else r) ∷ at_key f k rs

unfoldable pub find_row : String → List Row → Option Row
find_row k [] = none
find_row k (r ∷ rs) = let rest = find_row k rs in if r.secret_key is k then some r else rest

-- A row is kept by its key, with its state, when the secret is read again.
unfoldable pub with_value : Option Row → String → String → Row
with_value none k v = record { secret_key = k; value = v; revealed = false; copy_state = idle }
with_value (some r) k v = record r { secret_key = k; value = v }

unfoldable pub row_for : List Row → String × String → Row
unfolding find_row with_value
row_for old (k, v) = with_value (find_row k old) k v

module _ (parse_pretty : String → Option String) (locale_compare : String → String → Ordering) where
  unfoldable pub parse_json_pretty : String → Option String
  parse_json_pretty v =
      if not (is_some (after_prefix "{" v)) && not (is_some (after_prefix "[" v))
      then none
      else parse_pretty v

  abbrev pub is_revealed : Bool → Row → Bool
  is_revealed all r = all || r.revealed

  -- `displayValue`
  unfoldable pub display : Bool → Row → Shown
  unfolding parse_json_pretty is_tls_like
  display all r =
      let pretty = parse_json_pretty r.value in
      let text = or_default pretty r.value in
      if is_revealed all r
      then (if is_tls_like r.value || is_some pretty then block text else inline text)
      else masked

  -- `dataEntries`
  unfoldable pub data_entries : K8sSecretDetail → List (String × String)
  unfolding sort_by
  data_entries d = sort_by (λ p q. is_gt (locale_compare p.0 q.0)) d.content

  unfoldable pub step : Event → View → View
  unfolding at_key row_for data_entries
  step (select ns n) s = record closed_view { secret = some (ns, n); reveal_all = s.reveal_all }
  step close s = closed_view
  step (loaded d) s =
      if is_some s.secret
      then record s { detail = some d; rows = map (row_for s.rows) (data_entries d) }
      else s
  step press_all s = if is_some s.detail then record s { reveal_all = not s.reveal_all } else s
  step (press_row k) s = record s {
    rows = at_key (λ r. record r { revealed = not r.revealed }) k s.rows;
  }
  step (copy k c) s =
      let now = if copy_to_clipboard c then copied else copy_failed in
      record s { rows = at_key (λ r. record r { copy_state = now }) k s.rows }
  step (copy_timeout k) s = record s {
    rows = at_key (λ r. record r { copy_state = idle }) k s.rows;
  }

  unfoldable pub run : List Event → View → View
  run [] s = s
  run (e ∷ es) s = run es (step e s)

  -- A key with what its cell shows.
  unfoldable pub cell : Bool → Row → String × Shown
  unfolding display
  cell all r = (r.secret_key, display all r)

  unfoldable pub cells : View → List (String × Shown)
  unfolding cell
  cells s = map (cell s.reveal_all) s.rows
