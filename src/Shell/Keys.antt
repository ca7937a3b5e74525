-- ===== src/Shell/Keys.antt =====
-- web/src/components/terminal/SoftKeys.tsx: the keys under the terminal of web/src/routes/Terminal.tsx,
-- with the label of its status and of its button.
use control_room.Base.{
  ℕ, String, true, List, [], ◌∷◌, ◌++◌, append_assoc, append-nil, map, ◌≡◌, refl, arith, ap, sym,
  ◌∙◌,
}
use control_room.Shell.{
  Status, connecting, opened, closed, error, Frame, bytes, Shell, Event, input, update, live, step,
  run,
}

pub data Key : Type 0 where
  ctrl_c ctrl_d tab esc up_arrow down_arrow left_arrow right_arrow : Key

-- The bytes of a key; the text of a sequence is ASCII, so `TextEncoder` gives its codes.
abbrev pub key_bytes : Key → List ℕ
key_bytes ctrl_c = 3 ∷ []
key_bytes ctrl_d = 4 ∷ []
key_bytes tab = 9 ∷ []
key_bytes esc = 27 ∷ []
key_bytes up_arrow = 27 ∷ 91 ∷ 65 ∷ []
key_bytes down_arrow = 27 ∷ 91 ∷ 66 ∷ []
key_bytes left_arrow = 27 ∷ 91 ∷ 68 ∷ []
key_bytes right_arrow = 27 ∷ 91 ∷ 67 ∷ []

-- `onKey={sendBytes}`
abbrev pub press : {H : Type 0} → Key → Event H
press k = input (key_bytes k)

-- The pill's label.
abbrev pub status_label : Status → String
status_label connecting = "Connecting"
status_label opened = "Live"
status_label closed = "Closed"
status_label error = "Error"

abbrev pub button_label : Status → String
button_label opened = "Reset"
button_label _ = "Reconnect"

module _ {H : Type 0} (fallback : String) where
  -- The frames of keys.
  abbrev pub frames : List Key → List (Frame H)
  frames ks = map (λ k. bytes (key_bytes k)) ks

  abbrev pub presses : List Key → List (Event H)
  presses ks = map press ks

  press-live :
      (k : Key) (s : Shell H)
      → s.mounted ≡ true
      → s.socket s.generation ≡ live
      → step fallback (input (key_bytes k)) s ≡ record s {
        sent = update s.sent s.generation (s.sent s.generation ++ bytes (key_bytes k) ∷ []);
      }
  unfolding step
  press-live k s m l = rw (m, l) refl

  -- While the socket of the current generation is open, keys send their bytes on it, one frame for each key
  -- and in the order in which they are pressed, and nothing else changes there.
  pub keys_arrive :
      (ks : List Key) (s : Shell H)
      → s.mounted ≡ true
      → s.socket s.generation ≡ live
      → let t = run fallback (presses ks) s in
        (t.sent s.generation ≡ s.sent s.generation ++ frames ks)
        × (t.generation ≡ s.generation)
        × (t.socket ≡ s.socket)
        × (t.status ≡ s.status)
  unfolding run
  keys_arrive [] s m l = (sym (append-nil (s.sent s.generation)), refl, refl, refl)
  keys_arrive (k ∷ ks) s m l =
      let g = s.generation in
      let t = record s { sent = update s.sent g (s.sent g ++ bytes (key_bytes k) ∷ []) } in
      let (a, b, c, d) = keys_arrive ks t m l in
      rw (press-live k s m l, run)
        (
          a
              ∙ ap (λ fs. fs ++ frames ks) (ground arith)
              ∙ append_assoc (s.sent g) (bytes (key_bytes k) ∷ []) (frames ks),
          b,
          c,
          d,
        )
