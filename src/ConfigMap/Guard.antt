-- ===== src/ConfigMap/Guard.antt =====
-- When the editor of web/src/components/k8s/ConfigMapDetail.tsx sends an update.
use control_room.Base.{
  String, true, false, List, [], ◌∷◌, ◌++◌, Option, none, some, ◌≡◌, ◌≢◌, refl, sym, subst, arith,
  eq_iff, ap, inl, inr, Bool-cases,
}
use control_room.ConfigMap.Entries.{
  DataEntry, Locale, data_to_entries, build_data, duplicate_keys, invalid_keys,
}
use control_room.ConfigMap.{
  Update, Editor, Event, confirmed, truthy, api_failure, detail_loaded, select, save_enabled,
  press_save, confirm, save_failed, open_editor, can_save, step, run,
}

-- No key stands in two rows, and each key is empty or matches the pattern.
abbrev pub IsClean : List DataEntry → Type 0
IsClean es = (duplicate_keys es ≡ []) × (invalid_keys es ≡ [])

-- The update is made of the rows and the names that the editor has.
abbrev pub IsOf : Editor → Update → Type 0
IsOf s u =
    (s.namespace ≡ some u.namespace) × (s.name ≡ some u.name) × (u.data_sent ≡ build_data s.entries)

-- From `s` to `t` no update is sent, or one that is made of the rows of `s`, which are clean.
pub data Sends (s t : Editor) : Type 0 where
  nothing : t.sent ≡ s.sent → Sends s t
  one : (u : Update) → t.sent ≡ s.sent ++ u ∷ [] → IsOf s u → IsClean s.entries → Sends s t

module _ (locale : Locale) where
  -- The config maps that the server shows have clean keys.
  abbrev pub LoadsClean : List Event → Type 0
  LoadsClean [] = Unit
  LoadsClean (detail_loaded o ∷ es) = IsClean (data_to_entries locale o) × LoadsClean es
  LoadsClean (_ ∷ es) = LoadsClean es

  AsksWhenClean : Editor → Type 0
  AsksWhenClean s = s.confirm_open ≡ true → IsClean s.entries

  can_save-IsClean : (s : Editor) → can_save locale s ≡ true → IsClean s.entries
  unfolding can_save
  can_save-IsClean s h = ground arith

  confirmed-clean :
      (n m : Option String) (s : Editor) → (confirmed locale n m s).confirm_open ≡ false
  unfolding confirmed
  confirmed-clean (some n) (some m) s = refl
  confirmed-clean (some n) none s = refl
  confirmed-clean none m s = refl

  truthy-some : (o : Option String) (t : String) → truthy o ≡ some t → o ≡ some t
  truthy-some none t h = cc
  truthy-some (some r) t h = ground (arith, h)

  confirmed-Sends :
      (n m : Option String) (s : Editor)
      → truthy s.namespace ≡ n
      → truthy s.name ≡ m
      → IsClean s.entries
      → Sends s (confirmed locale n m s)
  unfolding confirmed
  confirmed-Sends (some n) (some m) s hn hm c =
      one (record { namespace = n; name = m; data_sent = build_data s.entries }) refl
        (truthy-some s.namespace n hn, truthy-some s.name m hm, refl) c
  confirmed-Sends (some n) none s hn hm c = nothing refl
  confirmed-Sends none m s hn hm c = nothing refl

  opened :
      (s : Editor)
      → s.confirm_open ≡ true
      → step locale confirm s ≡ confirmed locale (truthy s.namespace) (truthy s.name) s
  unfolding step
  opened s h = ground arith

  ignored : (s : Editor) → s.confirm_open ≡ false → step locale confirm s ≡ s
  unfolding step
  ignored s h = ground arith

  confirm-AsksWhenClean : (s : Editor) → AsksWhenClean (step locale confirm s)
  unfolding AsksWhenClean
  confirm-AsksWhenClean s h = elim (Bool-cases s.confirm_open) [
    | inl asked ↦
        let shut = confirmed-clean (truthy s.namespace) (truthy s.name) s in
        absurd (ground (arith, h, shut, ap (λ t. t.confirm_open) (opened s asked)))
    | inr idle ↦ absurd (ground (arith, h, idle, ap (λ t. t.confirm_open) (ignored s idle)))
  ]

  step-AsksWhenClean :
      (e : Event) (s : Editor)
      → LoadsClean (e ∷ [])
      → AsksWhenClean s
      → AsksWhenClean (step locale e s)
  unfolding step AsksWhenClean
  step-AsksWhenClean (detail_loaded o) s (c, _) v = λ h. c
  step-AsksWhenClean (save_failed (api_failure n m)) s c v = λ h. ground (arith, v)
  step-AsksWhenClean confirm s c v = confirm-AsksWhenClean s
  step-AsksWhenClean press_save s c v = λ h. ground (arith, v, can_save-IsClean s)
  step-AsksWhenClean e s c v = λ h. ground (arith, v)

  run-AsksWhenClean :
      (es : List Event) (s : Editor)
      → LoadsClean es
      → AsksWhenClean s
      → AsksWhenClean (run locale es s)
  unfolding run
  run-AsksWhenClean [] s c v = v
  run-AsksWhenClean (e ∷ es) s c v =
      run-AsksWhenClean es (step locale e s) (rest e c) (step-AsksWhenClean e s (first e c) v)
    where
      first : (e : Event) → LoadsClean (e ∷ es) → LoadsClean (e ∷ [])
      first (detail_loaded o) (d, _) = (d, tt)
      first _ d = tt

      rest : (e : Event) → LoadsClean (e ∷ es) → LoadsClean es
      rest (detail_loaded o) (_, d) = d
      rest _ d = d

  step-Sends : (e : Event) (s : Editor) → AsksWhenClean s → Sends s (step locale e s)
  unfolding step AsksWhenClean
  step-Sends confirm s v = elim (Bool-cases s.confirm_open) [
    | inl asked ↦
        subst (Sends s) (sym (opened s asked))
          (confirmed-Sends (truthy s.namespace) (truthy s.name) s refl refl (v asked))
    | inr idle ↦ subst (Sends s) (sym (ignored s idle)) (nothing refl)
  ]
  step-Sends (save_failed (api_failure n m)) s v = nothing (ground arith)
  step-Sends e s v = nothing (ground arith)

  -- However the editor was used, for whichever config maps it was opened, and whenever they were loaded
  -- into it, provided that those have clean keys themselves: what happens next sends no update, or one
  -- for the config map that is selected, made of the rows that the editor has at that time, in which no
  -- key stands twice and each key is empty or matches the pattern.
  pub updates_clean :
      (namespace name : Option String) (es : List Event) (e : Event)
      → LoadsClean es
      → let s = run locale es (open_editor namespace name) in Sends s (step locale e s)
  unfolding open_editor
  updates_clean namespace name es e c =
      step-Sends e _
        (run-AsksWhenClean es (open_editor namespace name) c (unfold AsksWhenClean in λ h. cc))

  -- Before the config map has been loaded, saving is already possible: two clicks replace the whole
  -- config map by an empty one.
  pub save_before_load :
      (namespace name : String)
      → namespace ≢ ""
      → name ≢ ""
      → (run locale (press_save ∷ confirm ∷ []) (open_editor (some namespace) (some name))).sent
        ≡ record { namespace = namespace; name = name; data_sent = [] } ∷ []
  unfolding run step open_editor build_data duplicate_keys invalid_keys
  save_before_load namespace name h k =
      ground (arith, eq_iff namespace "", eq_iff name "", eq_iff "" "[]")

  -- The rows stay when another config map is selected: whatever was loaded and typed before, an editor
  -- that could be saved, and shows no question, replaces the config map that is selected next by the rows of the one before,
  -- by two clicks before the new one has been loaded.
  pub kept_rows_saved :
      (namespace name : String) (s : Editor)
      → namespace ≢ ""
      → name ≢ ""
      → save_enabled locale s ≡ true
      → s.confirm_open ≡ false
      → (run locale (select (some namespace) (some name) ∷ press_save ∷ confirm ∷ []) s).sent
        ≡ s.sent
          ++ record { namespace = namespace; name = name; data_sent = build_data s.entries } ∷ []
  unfolding run step save_enabled can_save
  kept_rows_saved namespace name s h k e o =
      ground (arith, eq_iff namespace "", eq_iff name "", e, o)
