-- ===== src/Manifest/Laws.antt =====
-- What the editor of web/src/components/k8s/ManifestEditor.tsx keeps, sends and shows.
use control_room.Base.{
  String, true, false, List, [], ◌∷◌, ◌++◌, Option, none, some, ◌≡◌, refl, sym, subst, ap, ◌∙◌,
  arith, map, or_default,
}
use control_room.Manifest.{
  applied, Action, dry_run, apply, ApplyRequest, ApplyFailure, Editor, Event, fetch_settled, typed,
  succeeded, failed, confirm_apply, press_dry_run, run_apply, settled, on_success, on_error,
  can_apply, status_of, step, run,
}

-- The text that was typed or loaded last.
abbrev pub last_text : List Event → String → String
last_text [] t = t
last_text (typed y ∷ es) t = last_text es (or_default y "")
last_text (fetch_settled (some m) ∷ es) t = last_text es m.yaml
last_text (_ ∷ es) t = last_text es t

settled-edited :
    (a : Action) (y v : String) (w : List String) (s : Editor)
    → (settled a y v w s).edited_yaml ≡ s.edited_yaml
unfolding settled
settled-edited dry_run y v w s = refl
settled-edited apply y v w s = refl

success-edited :
    (r : Option ApplyRequest) (v : String) (w : List String) (s : Editor)
    → (on_success r v w s).edited_yaml ≡ s.edited_yaml
unfolding on_success
success-edited none v w s = refl
success-edited (some r) v w s = settled-edited r.action r.yaml v w s

error-edited :
    (r : Option ApplyRequest) (f : ApplyFailure) (s : Editor)
    → (on_error r f s).edited_yaml ≡ s.edited_yaml
unfolding on_error
error-edited none f s = refl
error-edited (some r) f s = refl

step-edited : (e : Event) (s : Editor) → (step e s).edited_yaml ≡ last_text (e ∷ []) s.edited_yaml
unfolding step
step-edited (succeeded v w) s = success-edited s.in_flight v w s
step-edited (failed f) s = error-edited s.in_flight f s
step-edited (typed none) s = refl
step-edited (typed (some y)) s = refl
step-edited (fetch_settled none) s = refl
step-edited (fetch_settled (some m)) s = refl
step-edited e s = ground arith

last_text-cons :
    (e : Event) (es : List Event) (t : String)
    → last_text (e ∷ es) t ≡ last_text es (last_text (e ∷ []) t)
last_text-cons (fetch_settled none) es t = refl
last_text-cons (fetch_settled (some m)) es t = refl
last_text-cons e es t = refl

-- No button, dialog, answer or error changes the text in the editor: whatever happens, it is the text
-- that was typed or loaded last.
pub edits_kept :
    (es : List Event) (s : Editor) → (run es s).edited_yaml ≡ last_text es s.edited_yaml
unfolding run
edits_kept [] s = refl
edits_kept (e ∷ es) s =
    edits_kept es (step e s)
    ∙ (ap (last_text es) (step-edited e s) ∙ sym (last_text-cons e es s.edited_yaml))

-- What the editor takes the server to hold, and what it has asked for.
pub record SameBase (s t : Editor) : Type 0 where
  pub same_yaml : t.original_yaml ≡ s.original_yaml
  pub same_version : t.resource_version ≡ s.resource_version
  pub same_request : t.in_flight ≡ s.in_flight
  pub same_sent : t.sent ≡ s.sent

typing-SameBase : (ys : List (Option String)) (s : Editor) → SameBase s (run (map typed ys) s)
unfolding run step
typing-SameBase [] s = record {
  same_yaml = refl;
  same_version = refl;
  same_request = refl;
  same_sent = refl;
}
typing-SameBase (none ∷ ys) s =
    let same = typing-SameBase ys (step (typed none) s) in
    record {
      same_yaml = same.same_yaml;
      same_version = same.same_version;
      same_request = same.same_request;
      same_sent = same.same_sent;
    }
typing-SameBase (some y ∷ ys) s =
    let same = typing-SameBase ys (step (typed (some y)) s) in
    record {
      same_yaml = same.same_yaml;
      same_version = same.same_version;
      same_request = same.same_request;
      same_sent = same.same_sent;
    }

run-append : (es fs : List Event) (s : Editor) → run (es ++ fs) s ≡ run fs (run es s)
unfolding run
run-append [] fs s = refl
run-append (e ∷ es) fs s = run-append es fs (step e s)

-- The request that `runApply` makes of the editor's content.
abbrev pub request_of : Action → Editor → ApplyRequest
request_of a s = record { yaml = s.edited_yaml; resource_version = s.resource_version; action = a }

confirm_sends :
    (s : Editor)
    → s.apply_dialog_open ≡ true
    → s.in_flight ≡ none
    → step confirm_apply s ≡ run_apply apply (record s { apply_dialog_open = false })
unfolding step
confirm_sends s h k = rw h (rw k refl)

dry_run_sends : (s : Editor) → can_apply s ≡ true → step press_dry_run s ≡ run_apply dry_run s
unfolding step
dry_run_sends s h = rw h refl

success_at :
    (r : ApplyRequest) (t : Editor) (v : String) (w : List String)
    → t.in_flight ≡ some r
    → step (succeeded v w) t ≡ settled r.action r.yaml v w t
unfolding step on_success
success_at r t v w h = ap (λ o. on_success o v w t) h

failure_at :
    (r : ApplyRequest) (t : Editor) (f : ApplyFailure)
    → t.in_flight ≡ some r
    → step (failed f) t ≡ record t { pending_action = none; in_flight = none; status = status_of f }
unfolding step on_error
failure_at r t f h = ap (λ o. on_error o f t) h

-- When the user confirms an apply, types on while it runs, and it succeeds, the base is the text that
-- was sent with the version that the server answered, one request was sent, with the version the text
-- was based on, and the text typed since is kept.
pub apply_cycle :
    (s : Editor) (ys : List (Option String)) (v : String) (w : List String)
    → s.apply_dialog_open ≡ true
    → s.in_flight ≡ none
    → let t = step (succeeded v w) (run (map typed ys) (step confirm_apply s)) in
      (t.original_yaml ≡ s.edited_yaml)
      × (t.resource_version ≡ v)
      × (t.in_flight ≡ none)
      × (t.sent ≡ request_of apply s ∷ s.sent)
      × (t.status ≡ applied w)
      × (t.edited_yaml ≡ last_text (map typed ys) s.edited_yaml)
unfolding run_apply settled
apply_cycle s ys v w h k = subst P (sym (confirm_sends s h k)) answered
  where
    P : Editor → Type 0
    P m =
        let t = step (succeeded v w) (run (map typed ys) m) in
        (t.original_yaml ≡ s.edited_yaml)
        × (t.resource_version ≡ v)
        × (t.in_flight ≡ none)
        × (t.sent ≡ request_of apply s ∷ s.sent)
        × (t.status ≡ applied w)
        × (t.edited_yaml ≡ last_text (map typed ys) s.edited_yaml)

    m : Editor
    m = run_apply apply (record s { apply_dialog_open = false })

    answered : P m
    answered =
        let same = typing-SameBase ys m in
        let at = success_at (request_of apply s) (run (map typed ys) m) v w same.same_request in
        rw at (refl, refl, refl, same.same_sent, refl, edits_kept (map typed ys) m)

-- The base of `s` with the text `y`.
abbrev pub HasBase : Editor → String → Editor → Type 0
HasBase s y t =
    (t.original_yaml ≡ s.original_yaml)
    × (t.resource_version ≡ s.resource_version)
    × (t.edited_yaml ≡ y)

-- A dry run, whatever is typed meanwhile, sends one request with the present text and version, and
-- changes neither the base nor its version nor what was typed, be it passed, refused or failed.
pub dry_run_cycle :
    (s : Editor) (ys : List (Option String)) (v : String) (w : List String) (f : ApplyFailure)
    → can_apply s ≡ true
    → let m = run (map typed ys) (step press_dry_run s) in
      HasBase s (last_text (map typed ys) s.edited_yaml) (step (succeeded v w) m)
      × HasBase s (last_text (map typed ys) s.edited_yaml) (step (failed f) m)
      × (m.sent ≡ request_of dry_run s ∷ s.sent)
unfolding run_apply settled
dry_run_cycle s ys v w f h = subst P (sym (dry_run_sends s h)) answered
  where
    P : Editor → Type 0
    P t =
        let m = run (map typed ys) t in
        HasBase s (last_text (map typed ys) s.edited_yaml) (step (succeeded v w) m)
        × HasBase s (last_text (map typed ys) s.edited_yaml) (step (failed f) m)
        × (m.sent ≡ request_of dry_run s ∷ s.sent)

    answered : P (run_apply dry_run s)
    answered =
        let m = run_apply dry_run s in
        let same = typing-SameBase ys m in
        let text = edits_kept (map typed ys) m in
        rw (success_at (request_of dry_run s) (run (map typed ys) m) v w same.same_request) (
          rw (failure_at (request_of dry_run s) (run (map typed ys) m) f same.same_request) (
            (same.same_yaml, same.same_version, text),
            (same.same_yaml, same.same_version, text),
            same.same_sent,
          ))
