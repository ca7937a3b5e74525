-- ===== src/Network/Form.antt =====
-- `AddRuleForm` of web/src/routes/Network.tsx. `e instanceof Error` is a failure with a message.
use control_room.Base.{
  String, Bool, true, false, List, [], ◌∷◌, ◌++◌, Option, none, some, ◌is◌, if◌then◌else◌,
  or_default, All, ◌≡◌, refl, arith, ap, ◌∙◌,
}
use control_room.Queries.Types.{AddRuleSpec}

pub record Form : Type 0 where
  pub spec : AddRuleSpec
  pub error : Option String
  pub adding : Bool
  pub sent : List AddRuleSpec

pub data Event : Type 0 where
  choose_action type_port choose_proto type_from : String → Event
  submit added : Event
  add_failed : Option String → Event

-- `{ action: 'allow' }`
abbrev pub empty_spec : AddRuleSpec
empty_spec = record {
  action = "allow";
  port = none;
  protocol = none;
  source = none;
  comment = none;
}

abbrev pub empty_form : Form
empty_form = record { spec = empty_spec; error = none; adding = false; sent = [] }

-- What an input makes of the specification; `value || undefined` for the protocol.
unfoldable pub edited : Event → AddRuleSpec → AddRuleSpec
edited (choose_action a) spec = record spec { action = a }
edited (type_port p) spec = record spec { port = some p }
edited (choose_proto p) spec = record spec { protocol = if p is "" then none else some p }
edited (type_from f) spec = record spec { source = some f }
edited submit spec = spec
edited added spec = spec
edited (add_failed m) spec = spec

unfoldable pub step : Event → Form → Form
unfolding edited
step submit s =
    if s.adding then s else record s { error = none; adding = true; sent = s.spec ∷ s.sent }
step added s = if s.adding then record s { adding = false; spec = empty_spec } else s
step (add_failed m) s =
    if s.adding
    then record s { adding = false; error = some (or_default m "Could not add rule") }
    else s
step e s = record s { spec = edited e s.spec }

unfoldable pub run : List Event → Form → Form
run [] s = s
run (e ∷ es) s = run es (step e s)

-- An event of an input.
abbrev pub IsEdit : Event → Type 0
IsEdit (choose_action a) = Unit
IsEdit (type_port p) = Unit
IsEdit (choose_proto p) = Unit
IsEdit (type_from f) = Unit
IsEdit submit = ⊥
IsEdit added = ⊥
IsEdit (add_failed m) = ⊥

-- The specification after the inputs.
unfoldable pub edits : List Event → AddRuleSpec → AddRuleSpec
edits [] spec = spec
edits (e ∷ es) spec = edits es (edited e spec)

step-edit : (e : Event) (s : Form) → IsEdit e → step e s ≡ record s { spec = edited e s.spec }
unfolding step
step-edit (choose_action a) s h = refl
step-edit (type_port p) s h = refl
step-edit (choose_proto p) s h = refl
step-edit (type_from f) s h = refl
step-edit submit s h = absurd h
step-edit added s h = absurd h
step-edit (add_failed m) s h = absurd h

run-edits :
    (es fs : List Event) (s : Form)
    → All IsEdit es
    → run (es ++ fs) s ≡ run fs (record s { spec = edits es s.spec })
unfolding run edits
run-edits [] fs s h = refl
run-edits (e ∷ es) fs s (h, hs) =
    ap (run (es ++ fs)) (step-edit e s h) ∙ run-edits es fs (record s { spec = edited e s.spec }) hs

submitting :
    (s : Form)
    → s.adding ≡ false
    → step submit s ≡ record s { error = none; adding = true; sent = s.spec ∷ s.sent }
unfolding step
submitting s p = ground (arith, p)

run-cons : (e : Event) (es : List Event) (s : Form) → run (e ∷ es) s ≡ run es (step e s)
unfolding run
run-cons e es s = refl

run-nil : (s : Form) → run [] s ≡ s
unfolding run
run-nil s = refl

-- The form when the answer `e` arrives.
answered :
    (before during : List Event) (e : Event) (s : Form)
    → All IsEdit before
    → All IsEdit during
    → s.adding ≡ false
    → run (before ++ (submit ∷ (during ++ (e ∷ [])))) s
      ≡ step e (record {
        spec = edits during (edits before s.spec);
        error = none;
        adding = true;
        sent = edits before s.spec ∷ s.sent;
      })
answered before during e s h k p =
    let t = record s { spec = edits before s.spec } in
    let u = record t { error = none; adding = true; sent = t.spec ∷ t.sent } in
    run-edits before (submit ∷ (during ++ (e ∷ []))) s h
    ∙ (run-cons submit (during ++ (e ∷ [])) t
        ∙ (ap (run (during ++ (e ∷ []))) (submitting t p)
            ∙ (run-edits during (e ∷ []) u k
                ∙ (run-cons e [] (record u { spec = edits during u.spec })
                    ∙ run-nil (step e (record u { spec = edits during u.spec }))))))

-- A rule that is typed and submitted is sent as it was typed, whatever is typed while the answer is
-- awaited. If it was added, the form is empty and shows no error, so that what was typed meanwhile is
-- gone; if it was refused, the form shows the refusal and keeps what was typed before and meanwhile.
pub rule_cycle :
    (before during : List Event) (m : Option String) (s : Form)
    → All IsEdit before
    → All IsEdit during
    → s.adding ≡ false
    → let typed = edits before s.spec in
      (run (before ++ (submit ∷ (during ++ (added ∷ [])))) s
        ≡ record { spec = empty_spec; error = none; adding = false; sent = typed ∷ s.sent })
      × (run (before ++ (submit ∷ (during ++ (add_failed m ∷ [])))) s ≡ record {
        spec = edits during typed;
        error = some (or_default m "Could not add rule");
        adding = false;
        sent = typed ∷ s.sent;
      })
unfolding step
rule_cycle before during m s h k p =
    (answered before during added s h k p, answered before during (add_failed m) s h k p)
