-- ===== src/Shell/Pill.antt =====
-- The status pill of web/src/routes/Terminal.tsx against the state of the socket in use.
use control_room.Base.{suc, String, List, [], ◌∷◌, none, some, ◌≡◌, arith}
use control_room.Shell.{
  Status, connecting, opened, closed, error, Socket, absent, pending, live, closing, gone, Shell,
  Event, on_open, on_close, on_error, on_text, on_bytes, input, on_resize, rebuild, press_reconnect,
  unmount, step, run,
}

-- What the pill should show for a socket. Only a failed socket is closed by the browser on its own.
abbrev pub reading : Socket → Status
reading absent = closed
reading pending = connecting
reading live = opened
reading closing = error
reading gone = closed

module _ {H : Type 0} (fallback : String) where
  -- The event is none of a socket of an earlier generation, and the page stays mounted.
  abbrev pub IsCurrent : Event H → Shell H → Type 0
  IsCurrent (on_open g) s = g ≡ s.generation
  IsCurrent (on_close g) s = g ≡ s.generation
  IsCurrent (on_error g) s = g ≡ s.generation
  IsCurrent unmount s = ⊥
  IsCurrent _ s = Unit

  abbrev pub AllCurrent : List (Event H) → Shell H → Type 0
  AllCurrent [] s = Unit
  AllCurrent (e ∷ es) s = IsCurrent e s × AllCurrent es (step fallback e s)

  abbrev pub Mirrors : Shell H → Type 0
  Mirrors s = s.status ≡ reading (s.socket s.generation)

  step-Mirrors :
      (e : Event H) (s : Shell H) → IsCurrent e s → Mirrors s → Mirrors (step fallback e s)
  unfolding step
  step-Mirrors (on_open g) s c m = ground arith
  step-Mirrors (on_close g) s c m = ground arith
  step-Mirrors (on_error g) s c m = ground arith
  step-Mirrors (on_text g none) s c m = ground arith
  step-Mirrors (on_text g (some n)) s c m = ground arith
  step-Mirrors (on_bytes g d) s c m = ground arith
  step-Mirrors (input d) s c m = ground arith
  step-Mirrors (on_resize r k) s c m = ground arith
  step-Mirrors (rebuild h) s c m = ground arith
  step-Mirrors (press_reconnect h) s c m = ground arith
  step-Mirrors unmount s c m = absurd c

  -- As long as no event of an earlier generation's socket arrives, the status shows the state of the
  -- socket in use: connecting, open, closed, or in error.
  pub run-Mirrors :
      (es : List (Event H)) (s : Shell H)
      → AllCurrent es s
      → Mirrors s
      → Mirrors (run fallback es s)
  unfolding run
  run-Mirrors [] s c m = m
  run-Mirrors (e ∷ es) s (c, cs) m = run-Mirrors es (step fallback e s) cs (step-Mirrors e s c m)

  -- The close event of the socket that a reconnection has replaced is not told from that of the new
  -- one: if it arrives after the new socket has opened, the status is closed while the new socket is
  -- live.
  pub late_close_misleads :
      (s : Shell H) (h : H)
      → s.socket s.generation ≡ live
      → s.status ≡ opened
      → let g = s.generation in
        let t = run fallback (press_reconnect h ∷ on_open (suc g) ∷ on_close g ∷ []) s in
        (t.status ≡ closed) × (t.socket t.generation ≡ live)
  unfolding run step
  late_close_misleads s h l o = ground arith
