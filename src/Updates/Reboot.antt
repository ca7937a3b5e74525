-- ===== src/Updates/Reboot.antt =====
-- How often web/src/routes/Updates.tsx asks the server to reboot.
use control_room.Base.{
  ℕ, suc, ◌+◌, ◌≤◌, String, false, not, ◌&&◌, List, [], ◌∷◌, Option, none, some, ◌is◌,
  if◌then◌else◌, ◌≡◌, refl, arith, Bool-cases, inl, inr,
}
use control_room.Queries.Types.{UpdatePackage}
use control_room.Jobs
use control_room.Updates.{
  Page, Event, job_event, type_reboot, reboot_started, reboot_failed, check_started, apply_started,
  apply_failed, close_drawer, open_page, with_job, set_job, set_other, on_job, on_install,
  press_install, step, run,
}

-- How many times the word was typed.
unfoldable pub times_typed : List Event → ℕ
times_typed [] = 0
times_typed (type_reboot t ∷ es) =
    let rest = times_typed es in if t is "REBOOT" then suc rest else rest
times_typed (e ∷ es) = times_typed es

-- One if the button would send a request now.
abbrev armed : Page → ℕ
armed s = if s.reboot_text is "REBOOT" && not s.rebooting then 1 else 0

-- What a job changes leaves the reboot alone.
abbrev SameReboot : Page → Page → Type 0
SameReboot s t =
    (t.reboots ≡ s.reboots) × (t.reboot_text ≡ s.reboot_text) × (t.rebooting ≡ s.rebooting)

set_job-SameReboot : (i : Option String) (s : Page) → SameReboot s (set_job i s)
unfolding set_job with_job
set_job-SameReboot i s = ground arith

set_other-SameReboot : (i : Option String) (s : Page) → SameReboot s (set_other i s)
unfolding set_other
set_other-SameReboot none s = (refl, refl, refl)
set_other-SameReboot (some i) s = ground (arith, set_job-SameReboot (some i) s)

on_job-SameReboot : (i : Option String) (e : Jobs.Event) (s : Page) → SameReboot s (on_job i e s)
unfolding on_job with_job
on_job-SameReboot none e s = (refl, refl, refl)
on_job-SameReboot (some i) e s = ground arith

on_install-SameReboot : (ps : List UpdatePackage) (s : Page) → SameReboot s (on_install ps s)
unfolding on_install
on_install-SameReboot [] s = (refl, refl, refl)
on_install-SameReboot (p ∷ ps) s = (refl, refl, refl)

step-armed :
    (e : Event) (s : Page)
    → (step e s).reboots + armed (step e s) ≤ s.reboots + armed s + times_typed (e ∷ [])
unfolding step times_typed
step-armed (check_started i) s =
    ground (arith, set_job-SameReboot (some i) (record s { checking = false }))
step-armed (apply_started i) s =
    ground (arith, set_job-SameReboot (some i) (record s { applying = false }))
step-armed (apply_failed o) s =
    ground (arith, set_other-SameReboot o (record s { applying = false }))
step-armed (reboot_started i) s = elim (Bool-cases s.rebooting) [
  | inl e ↦
      let q = set_job-SameReboot (some i) (record s { rebooting = false }) in
      simp e (omega (arith, q.0))
  | inr e ↦ simp e (omega arith)
]
step-armed reboot_failed s = elim (Bool-cases s.rebooting) [
  | inl e ↦ simp e (omega arith)
  | inr e ↦ simp e (omega arith)
]
step-armed close_drawer s = ground (arith, set_job-SameReboot none (record s { drawer = none }))
step-armed (job_event e) s = ground (arith, on_job-SameReboot s.job_id e s)
step-armed press_install s = ground (arith, on_install-SameReboot s.packages s)
step-armed e s = ground arith

times_typed-cons :
    (e : Event) (es : List Event) → times_typed (e ∷ es) ≡ times_typed (e ∷ []) + times_typed es
unfolding times_typed
times_typed-cons (type_reboot t) es = ground arith
times_typed-cons e es = ground arith

run-armed : (es : List Event) (s : Page) → (run es s).reboots ≤ s.reboots + armed s + times_typed es
unfolding run
run-armed [] s = omega arith
run-armed (e ∷ es) s = omega (arith, run-armed es (step e s), step-armed e s, times_typed-cons e es)

-- However the page is used, it has asked for a reboot at most as often as the word REBOOT was typed
-- into the field beside the button.
pub reboots_typed : (es : List Event) → (run es open_page).reboots ≤ times_typed es
unfolding open_page
reboots_typed es = omega (arith, run-armed es open_page)
