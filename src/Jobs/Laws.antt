-- ===== src/Jobs/Laws.antt =====
-- What `useJobStream` of web/src/lib/updates.ts shows, against the frames and the answer it received.
use text.Mathlib.TextLemmas
use control_room.Base.{
  String, true, false, List, [], ◌∷◌, ◌++◌, none, some, ◌is◌, ◌<>◌, or_default, ◌≡◌, refl, sym, ap,
  ◌∙◌, arith, eq_iff, Bool-cases, inl, inr, map,
}
use control_room.Jobs.{
  JobState, JobStatus, snapshot, chunk, state, Stream, Event, rest_answer, frame, socket_error,
  cleanup, start, step, run,
}

pub run-append : (es fs : List Event) (v : Stream) → run (es ++ fs) v ≡ run fs (run es v)
unfolding run
run-append [] fs v = refl
run-append (e ∷ es) fs v = run-append es fs (step e v)

-- The frames that the server sends for a snapshot and for a piece of output.
abbrev pub snapshot_of : String → Event
snapshot_of s = frame (some (record { type = snapshot; output = some s; state = none }))

abbrev pub chunk_of : String → Event
chunk_of s = frame (some (record { type = chunk; output = some s; state = none }))

abbrev pub state_of : JobState → Event
state_of s = frame (some (record { type = state; output = none; state = some s }))

pub concat : List String → String
concat [] = ""
concat (s ∷ ss) = s <> concat ss

chunk-appends : (s : String) (v : Stream) → (step (chunk_of s) v).output ≡ v.output <> s
unfolding step
chunk-appends s v = elim (Bool-cases (s is "")) [
  | inl blank ↦
      rw blank
        (sym (ap (λ t. v.output <> t) ((eq_iff s "").0 blank) ∙ TextLemmas.append-nil v.output))
  | inr filled ↦ rw filled refl
]

run-chunks :
    (ss : List String) (v : Stream) → (run (map chunk_of ss) v).output ≡ v.output <> concat ss
unfolding run concat
run-chunks [] v = sym (TextLemmas.append-nil v.output)
run-chunks (s ∷ ss) v =
    run-chunks ss (step (chunk_of s) v)
    ∙ (ap (λ o. o <> concat ss) (chunk-appends s v)
        ∙ TextLemmas.append_assoc v.output s (concat ss))

-- Behind a snapshot, whatever came before it, the view shows the snapshot and then every chunk in
-- the order of arrival.
pub output-snapshot :
    (before : List Event) (s : String) (ss : List String)
    → (run (before ++ snapshot_of s ∷ map chunk_of ss) start).output ≡ s <> concat ss
unfolding run step
output-snapshot before s ss =
    ap (λ v. v.output) (run-append before (snapshot_of s ∷ map chunk_of ss) start)
    ∙ run-chunks ss (step (snapshot_of s) (run before start))

-- The effect was not cleaned up by these events.
abbrev pub IsLive : List Event → Type 0
IsLive es = (run es start).is_cancelled ≡ false

-- The answer of the REST call replaces what the socket has delivered before it, output and state: a
-- chunk that arrived first is lost, and so is the final state of a job that had ended.
pub late_answer_wins :
    (before : List Event) (j : JobStatus)
    → IsLive before
    → let v = run (before ++ rest_answer (some j) ∷ []) start in
      (v.output ≡ or_default j.output "") × (v.state ≡ some j.state)
unfolding run step
late_answer_wins before j live =
    rw (run-append before (rest_answer (some j) ∷ []) start) (ground arith)

-- An answer of the REST call, an error of the socket, or another cleanup.
abbrev pub IsStale : Event → Type 0
IsStale (rest_answer j) = Unit
IsStale socket_error = Unit
IsStale cleanup = Unit
IsStale (frame f) = ⊥

abbrev pub AllStale : List Event → Type 0
AllStale [] = Unit
AllStale (e ∷ es) = IsStale e × AllStale es

stale-step : (e : Event) (v : Stream) → IsStale e → v.is_cancelled ≡ true → step e v ≡ v
unfolding step
stale-step (rest_answer none) v h c = ground arith
stale-step (rest_answer (some j)) v h c = ground arith
stale-step socket_error v h c = ground arith
stale-step cleanup v h c = ground arith
stale-step (frame f) v h c = absurd h

stale-run : (es : List Event) (v : Stream) → AllStale es → v.is_cancelled ≡ true → run es v ≡ v
unfolding run
stale-run [] v h c = refl
stale-run (e ∷ es) v (h, hs) c = rw (stale-step e v h c) (stale-run es v hs c)

-- Once the view has left a job, neither the answer of the REST call nor an error of the socket
-- changes anything, however many of them come late.
pub cleanup_silences :
    (before late : List Event)
    → AllStale late
    → run (before ++ cleanup ∷ late) start ≡ run (before ++ cleanup ∷ []) start
unfolding run step
cleanup_silences before late h =
    run-append before (cleanup ∷ late) start
    ∙ (stale-run late (step cleanup (run before start)) h refl
        ∙ sym (run-append before (cleanup ∷ []) start))
