-- ===== src/Logs/Tail/Laws.antt =====
-- Which query the socket of the live journal in web/src/routes/Logs.tsx follows.
use control_room.Base.{String, true, false, List, [], ◌∷◌, Option, ◌≡◌, refl, arith, ◌∙◌}
use control_room.Logs
use control_room.Logs.{reopen}
use control_room.Logs.Feeds.{TailFrame, journal_feed}
use control_room.Logs.Journal
use control_room.Logs.Journal.{filled}
use control_room.Logs.Tail.{
  Tail, Event, change, frame, broken, ended, close, open_socket, is_tailing, same_query, render,
  step, run,
}

module _ (parse : String → Option TailFrame) where
  -- A change that keeps the query, and shows the live journal before and behind.
  abbrev pub IsIdle : Event → Tail → Type 0
  IsIdle (change e) t =
      (is_tailing (Journal.step e t.form) ≡ true)
      × (same_query t.form (Journal.step e t.form) ≡ true)
  IsIdle _ t = Unit

  abbrev pub AllIdle : List Event → Tail → Type 0
  AllIdle [] t = Unit
  AllIdle (e ∷ es) t = IsIdle e t × AllIdle es (step parse e t)

  idle-step :
      (e : Event) (t : Tail)
      → is_tailing t.form ≡ true
      → t.is_open ≡ false
      → IsIdle e t
      → let u = step parse e t in
        (is_tailing u.form ≡ true) × (u.is_open ≡ false) × (u.view ≡ t.view)
  unfolding step render close
  idle-step (change e) t p o (q, k) = rw (p, q, k) (q, o, refl)
  idle-step (frame text) t p o i = (ground (arith, p, o), ground (arith, o), ground (arith, o))
  idle-step broken t p o i = (ground (arith, p, o), ground (arith, o), ground (arith, o))
  idle-step ended t p o i = (ground (arith, p, o), ground (arith, o), ground (arith, o))

  -- Once the socket of the live journal has ended, nothing opens it again while the live journal is
  -- shown for the same query: whatever happens, the list stays as it was.
  pub ended_stays :
      (es : List Event) (t : Tail)
      → is_tailing t.form ≡ true
      → t.is_open ≡ false
      → AllIdle es t
      → let u = run parse es t in (u.is_open ≡ false) × (u.view ≡ t.view)
  unfolding run
  ended_stays [] t p o i = (o, refl)
  ended_stays (e ∷ es) t p o (i, is) =
      let (q, c, v) = idle-step e t p o i in
      let rest = ended_stays es (step parse e t) q c is in (rest.0, rest.1 ∙ v)

  -- A change of the form that changes the query of the live journal empties the list.
  pub changed_empties :
      (e : Journal.Event) (t : Tail)
      → is_tailing t.form ≡ true
      → is_tailing (Journal.step e t.form) ≡ true
      → same_query t.form (Journal.step e t.form) ≡ false
      → (step parse (change e) t).view.lines ≡ []
  unfolding step render open_socket Logs.step journal_feed
  changed_empties e t p q k = rw (p, q, k) refl
