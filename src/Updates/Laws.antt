-- ===== src/Updates/Laws.antt =====
-- The page of web/src/routes/Updates.tsx against the jobs that it starts and follows.
use control_room.Base.{
  suc, String, true, false, not, ◌&&◌, List, [], ◌∷◌, Option, none, some, ◌is◌, ◌==◌, if◌then◌else◌,
  All, ◌≡◌, ◌≢◌, refl, arith, eq_iff, ◌∙◌, sym, subst,
}
use control_room.Queries.Types.{UpdatePackage}
use control_room.Jobs.{
  JobState, running, succeeded, failed, cancelled, not_found, JobStatus, FrameType, state,
  rest_answer, frame, Stream, on_rest, start,
}
use control_room.Jobs
use control_room.Jobs.Laws.{state_of}
use control_room.Updates.{
  Page, Event, job_event, check_started, apply_started, rank, has_ended, with_job, same_id,
  stream_for, set_job, on_job, step, run, apply, press_check, close_drawer, press_install,
  press_apply, on_install,
}

-- Events of the stream that report this state of the job.
pub data Reports (r : JobState) : Jobs.Event → Type 0 where
  by_frame : Reports r (state_of r)
  by_answer : (j : JobStatus) → j.state ≡ r → Reports r (rest_answer (some j))

-- A state in which a job has ended.
pub data IsFinal : JobState → Type 0 where
  by_success : IsFinal succeeded
  by_failure : IsFinal failed
  by_cancel : IsFinal cancelled

-- The events of a list, as the page receives them.
abbrev pub of_job : List Jobs.Event → List Event
of_job [] = []
of_job (e ∷ es) = job_event e ∷ of_job es

reported :
    (r : JobState) (e : Jobs.Event) (v : Stream)
    → Reports r e
    → v.is_cancelled ≡ false
    → ((Jobs.step e v).state ≡ some r) × ((Jobs.step e v).is_cancelled ≡ false)
unfolding Jobs.step
reported r e v by_frame h = (refl, h)
reported r e v (by_answer j p) h = ground (arith, p, h)

-- The page follows the job `i`, whose stream shows the state `r`.
pub record Follows (i : String) (r : JobState) (s : Page) : Type 0 where
  pub id : s.job_id ≡ some i
  pub named : i ≢ ""
  pub shows : s.job.state ≡ some r
  pub live : s.job.is_cancelled ≡ false

on_job-with_job :
    (i : String) (o : Option String) (e : Jobs.Event) (s : Page)
    → o ≡ some i
    → i ≢ ""
    → on_job o e s ≡ with_job (Jobs.step e s.job) s
unfolding on_job
on_job-with_job i none e s p n = ground (arith, p)
on_job-with_job i (some j) e s p n = ground (arith, p, n, eq_iff j "")

with_job-refetches :
    (a b : JobState) (v : Stream) (s : Page)
    → s.job.state ≡ some a
    → v.state ≡ some b
    → (with_job v s).refetches
      ≡ (if not (rank a == rank b) && has_ended (some b) then suc s.refetches else s.refetches)
unfolding with_job
with_job-refetches a b v s p q = rw (p, q) refl

step-Follows :
    (i : String) (a r : JobState) (e : Jobs.Event) (s : Page)
    → Follows i a s
    → Reports r e
    → Follows i r (step (job_event e) s)
      × ((step (job_event e) s).refetches
          ≡ (if not (rank a == rank r) && has_ended (some r) then suc s.refetches else s.refetches))
unfolding step
step-Follows i a r e s f p =
    let q = on_job-with_job i s.job_id e s f.id f.named in
    let now = reported r e s.job p f.live in
    rw q (
      record {
        id = unfold with_job in f.id;
        named = f.named;
        shows = unfold with_job in now.0;
        live = unfold with_job in now.1;
      },
      with_job-refetches a r (Jobs.step e s.job) s f.shows now.0,
    )

rank-same : (r : JobState) → (rank r == rank r) ≡ true
rank-same r = ground arith

same-Reports :
    (i : String) (r : JobState) (es : List Jobs.Event) (s : Page)
    → Follows i r s
    → All (Reports r) es
    → (run (of_job es) s).refetches ≡ s.refetches
unfolding run
same-Reports i r [] s f h = refl
same-Reports i r (e ∷ es) s f (h, hs) =
    let next = step-Follows i r r e s f h in
    same-Reports i r es (step (job_event e) s) next.0 hs ∙ (next.1 ∙ ground (arith, rank-same r))

ended_changes :
    (r : JobState) → IsFinal r → ((rank running == rank r) ≡ false) × (has_ended (some r) ≡ true)
unfolding has_ended
ended_changes r by_success = (refl, refl)
ended_changes r by_failure = (refl, refl)
ended_changes r by_cancel = (refl, refl)

-- A job that the page shows as running, and that then ends, makes the page read the list of packages
-- again exactly once, by whichever of the socket's frames and answers of the REST call report the end,
-- and however often: whether it succeeded, failed or was cancelled.
pub end_refetches_once :
    (i : String) (r : JobState) (e : Jobs.Event) (es : List Jobs.Event) (s : Page)
    → Follows i running s
    → IsFinal r
    → All (Reports r) (e ∷ es)
    → (run (of_job (e ∷ es)) s).refetches ≡ suc s.refetches
unfolding run
end_refetches_once i r e es s f d (h, hs) =
    let next = step-Follows i running r e s f h in
    same-Reports i r es (step (job_event e) s) next.0 hs
    ∙ (next.1 ∙ rw ((ended_changes r d).0, (ended_changes r d).1) refl)

-- The clicks and answers of a check whose answer comes after that of an installation.
abbrev pub late_check : String → String → List Event
late_check a c =
    press_check
    ∷ close_drawer
    ∷ press_install
    ∷ press_apply
    ∷ apply_started a
    ∷ check_started c
    ∷ []

late_check-ends :
    (a c : String) (p : UpdatePackage) (ps : List UpdatePackage) (o : Option String) (s : Page)
    → (c is a) ≡ false
    → (c is "") ≡ false
    → let t =
        run
          (late_check a c)
          (record s { packages = p ∷ ps; checking = false; applying = false; job_id = o }) in
      (t.drawer ≡ some apply) × (t.job_id ≡ some c) × (t.job ≡ start) × (t.applies ≡ suc s.applies)
unfolding run step set_job with_job same_id stream_for on_install
late_check-ends a c p ps none s d n = rw (d, n) (refl, refl, refl, refl)
late_check-ends a c p ps (some j) s d n = rw (d, n) (refl, refl, refl, refl)

-- A check whose answer comes late takes over the drawer: on a page with a package and no start under
-- way, when the drawer of a check is closed before the check was started, and an installation is
-- confirmed and started meanwhile, the drawer is titled as that of the installation and follows the job
-- of the check from its beginning, whatever job the page followed before.
pub late_check_shown :
    (a c : String) (p : UpdatePackage) (ps : List UpdatePackage) (s : Page)
    → c ≢ ""
    → a ≢ c
    → s.packages ≡ p ∷ ps
    → s.checking ≡ false
    → s.applying ≡ false
    → let t = run (late_check a c) s in
      (t.drawer ≡ some apply) × (t.job_id ≡ some c) × (t.job ≡ start) × (t.applies ≡ suc s.applies)
late_check_shown a c p ps s n d h k m =
    let same : record s { packages = p ∷ ps; checking = false; applying = false } ≡ s =
      λ i. record s { packages = sym h i; checking = sym k i; applying = sym m i } in
    subst
      (λ u.
        let t = run (late_check a c) u in
        (t.drawer ≡ some apply)
        × (t.job_id ≡ some c)
        × (t.job ≡ start)
        × (t.applies ≡ suc s.applies))
      same
      (late_check-ends a c p ps s.job_id s (ground (arith, d, eq_iff c a))
        (ground (arith, n, eq_iff c "")))
