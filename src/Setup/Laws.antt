-- ===== src/Setup/Laws.antt =====
-- What the wizard of web/src/routes/Setup.tsx sends and shows.
use Prim.Native.String.{[], ◌∷◌}
use control_room.Base.{
  ◌≤◌, String, code, Bool, true, false, List, [], ◌∷◌, Option, none, some, is_some, ◌≡◌, ◌≢◌, refl,
  sym, subst, ap, ◌∙◌, arith, All, inl, inr, ◌⊎◌,
}
use control_room.Setup.Strength.{length16, is_digit}
use control_room.Setup.{
  totp, done, AccountValues, TotpEnrollment, SetupRequest, Wizard, Event, submit_account, type_code,
  press_verify, press_skip, completed, completion_failed, start, all_chars, valid_username, accepts,
  digits_of, trim_start, trim_end, trim, totp_of, submit, handle, run,
}

pub digits_of-digits : (s : String) → all_chars is_digit (digits_of s) ≡ true
unfolding all_chars digits_of
digits_of-digits [] = refl
digits_of-digits (c ∷ s) = ground (arith, digits_of-digits s)

trim_start-digits : (s : String) → all_chars is_digit s ≡ true → trim_start s ≡ s
unfolding all_chars trim_start
trim_start-digits [] h = refl
trim_start-digits (c ∷ s) h = ground arith

trim_end-digits : (s : String) → all_chars is_digit s ≡ true → trim_end s ≡ s
unfolding all_chars trim_end
trim_end-digits [] h = refl
trim_end-digits (c ∷ s) h = ground (arith, trim_end-digits s)

pub trim-digits : (s : String) → all_chars is_digit s ≡ true → trim s ≡ s
unfolding trim_start trim_end
trim-digits s h = ap trim_end (trim_start-digits s h) ∙ trim_end-digits s h

-- A code of six digits.
abbrev pub IsCode : String → Type 0
IsCode s = (all_chars is_digit s ≡ true) × (length16 s ≡ 6)

abbrev pub HasCode : Option (String × String) → Type 0
HasCode none = Unit
HasCode (some (secret, code)) = IsCode code

-- The account passed the form's rules, and a code, if there is one, has six digits.
abbrev pub IsValid : SetupRequest → Type 0
IsValid r =
    (valid_username r.username ≡ true)
    × (12 ≤ length16 r.password)
    × (length16 r.password ≤ 72)
    × HasCode r.totp_code

pub record Inv (w : Wizard) : Type 0 where
  pub code_digits : all_chars is_digit w.code_typed ≡ true
  pub account_valid : (v : AccountValues) → w.account_values ≡ some v → accepts v ≡ true
  pub has_account : w.step ≡ totp → is_some w.account_values ≡ true
  pub sent_valid : All IsValid w.sent
  pub finished : w.step ≡ done → w.sent ≢ []
  pub awaiting : w.completions ≢ 0 → w.sent ≢ []

totp_of-HasCode :
    (b : Bool) (e : Option TotpEnrollment) (s : String)
    → IsCode s ⊎ (b ≡ false)
    → HasCode (totp_of b e s)
unfolding totp_of
totp_of-HasCode true (some e) s (inl c) = rw (trim-digits s (c.0)) c
totp_of-HasCode true (some e) s (inr h) = absurd cc
totp_of-HasCode true none s c = tt
totp_of-HasCode false e s c = tt

accepts-bounds :
    (a : AccountValues)
    → accepts a ≡ true
    → (valid_username a.username ≡ true) × (12 ≤ length16 a.password) × (length16 a.password ≤ 72)
unfolding accepts
accepts-bounds a h = ground arith

submit-Inv :
    (b : Bool) (a : Option AccountValues) (w : Wizard)
    → w.account_values ≡ a
    → IsCode w.code_typed ⊎ (b ≡ false)
    → Inv w
    → Inv (submit b a w)
unfolding submit
submit-Inv b none w h c v = v
submit-Inv b (some a) w h c v = record {
  code_digits = v.code_digits;
  account_valid = v.account_valid;
  has_account = v.has_account;
  sent_valid =
      let (name, long, short) = accepts-bounds a (v.account_valid a h) in
      ((name, long, short, totp_of-HasCode b w.enrollment w.code_typed c), v.sent_valid);
  finished = λ h k. cc;
  awaiting = λ h k. cc;
}

verify-cases :
    (w : Wizard)
    → Inv w
    → (handle press_verify w ≡ w)
      ⊎ (IsCode w.code_typed × (handle press_verify w ≡ submit true w.account_values w))
unfolding handle
verify-cases w v = ground (arith, v.code_digits)

skip-cases :
    (w : Wizard)
    → (handle press_skip w ≡ w) ⊎ (handle press_skip w ≡ submit false w.account_values w)
unfolding handle
skip-cases w = ground arith

step-Inv : (e : Event) (w : Wizard) → Inv w → Inv (handle e w)
unfolding handle
step-Inv press_verify w v = elim (verify-cases w v) [
  | inl h ↦ subst Inv (sym h) v
  | inr (c, h) ↦ subst Inv (sym h) (submit-Inv true w.account_values w refl (inl c) v)
]
step-Inv press_skip w v = elim (skip-cases w) [
  | inl h ↦ subst Inv (sym h) v
  | inr h ↦ subst Inv (sym h) (submit-Inv false w.account_values w refl (inr refl) v)
]
step-Inv (submit_account a) w v = record {
  code_digits = ground (arith, v.code_digits);
  account_valid = λ b h. ground (arith, v.account_valid b);
  has_account = λ h. ground (arith, v.has_account);
  sent_valid = ground (arith, v.sent_valid);
  finished = λ h. ground (arith, v.finished);
  awaiting = λ h. ground (arith, v.awaiting);
}
step-Inv (type_code s) w v = record {
  code_digits = ground (arith, v.code_digits, digits_of-digits s);
  account_valid = λ b h. ground (arith, v.account_valid b);
  has_account = λ h. ground (arith, v.has_account);
  sent_valid = ground (arith, v.sent_valid);
  finished = λ h. ground (arith, v.finished);
  awaiting = λ h. ground (arith, v.awaiting);
}
step-Inv e w v = record {
  code_digits = ground (arith, v.code_digits);
  account_valid = λ a h. ground (arith, v.account_valid a);
  has_account = λ h. ground (arith, v.has_account);
  sent_valid = ground (arith, v.sent_valid);
  finished = λ h. ground (arith, v.finished, v.awaiting);
  awaiting = λ h. ground (arith, v.awaiting);
}

run-Inv : (es : List Event) (w : Wizard) → Inv w → Inv (run es w)
unfolding run
run-Inv [] w v = v
run-Inv (e ∷ es) w v = run-Inv es (handle e w) (step-Inv e w v)

start-Inv : Inv start
unfolding all_chars
start-Inv = record {
  code_digits = refl;
  account_valid = λ a h. cc;
  has_account = λ h. cc;
  sent_valid = tt;
  finished = λ h k. cc;
  awaiting = λ h k. h refl;
}

-- However the wizard is used, each completion that it sends has a username of the form's pattern, a
-- password of 12 to 72 UTF-16 code units, and, if it has a code, one of exactly six digits; and the
-- wizard is done only after it has sent one.
pub completions-IsValid :
    (es : List Event) → let w = run es start in All IsValid w.sent × (w.step ≡ done → w.sent ≢ [])
completions-IsValid es = let v = run-Inv es start start-Inv in (v.sent_valid, v.finished)

-- Pressing "Skip for now" twice before the answer sends two completions: the wizard then stands at
-- its last step by the first answer, and has the refusal of the second one as its error.
pub double_skip_shows_error :
    (w : Wizard) (a : AccountValues) (message : String)
    → w.step ≡ totp
    → w.enrollment ≡ none
    → w.account_values ≡ some a
    → w.completions ≡ 0
    → let t = run (press_skip ∷ press_skip ∷ completed ∷ completion_failed (some message) ∷ []) w in
      (t.step ≡ done) × (t.error ≡ some message)
unfolding run handle submit
double_skip_shows_error w a message h k l m = ground arith
