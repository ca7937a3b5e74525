-- ===== src/Logs/Buffer.antt =====
-- The lines of the live log views against the unbounded history of what they received.
use control_room.Base.{
  ℕ, ◌-◌, ◌≤◌, true, false, List, [], ◌∷◌, ◌++◌, Option, none, some, ltb, ◌≡◌, refl, ap, ◌∙◌, arith,
  if◌then◌else◌, length, drop, length-append, length-drop, drop-append, drop-drop, ◌⊎◌, inl, inr,
  Bool-cases,
}
use control_room.Logs.{
  max_lines, Feed, View, Event, message, socket_error, reopen, clear, toggle_pause, empty_view,
  push_capped, append_item, on_frame, on_message, step, run,
}

module _ {A : Type 0} where
  -- The last `n` elements.
  abbrev pub last : ℕ → List A → List A
  last n xs = drop (length xs - n) xs

  pub length-last : (n : ℕ) (xs : List A) → length (last n xs) ≤ n
  length-last n xs = omega (arith, length-drop (length xs - n) xs)

  clip :
      (n k : ℕ) (ys : List A)
      → k ≤ length ys - n
      → (if ltb n (length (drop k ys))
          then drop (length (drop k ys) - n) (drop k ys)
          else drop k ys)
        ≡ last n ys
  clip n k ys h = elim (Bool-cases (ltb n (length (drop k ys)))) [
    | inl over ↦ rw over (
        drop-drop (length (drop k ys) - n) k ys
        ∙ ap (λ m. drop m ys) (ground (arith, length-drop k ys)))
    | inr fits ↦ rw fits (ap (λ m. drop m ys) (ground (arith, length-drop k ys)))
  ]

  -- Pushing onto the last lines gives the last lines of the longer list.
  push_capped-last :
      (n : ℕ) (xs : List A) (x : A) → push_capped n (last n xs) x ≡ last n (xs ++ x ∷ [])
  unfolding push_capped
  push_capped-last n xs x =
      rw (← drop-append (length xs - n) xs (x ∷ []) (omega arith))
        (clip n (length xs - n) (xs ++ x ∷ []) (omega (arith, length-append xs (x ∷ []))))

module _ {F A : Type 0} (feed : Feed F A) where
  open feed use {parse, is_error, err, fallback, item, resets}

  -- Everything that the view has received since it was last emptied, without a bound.
  heard : Option A → List A → List A
  heard none h = h
  heard (some x) h = h ++ x ∷ []

  received : Option F → List A → List A
  unfolding heard
  received none h = h
  received (some f) h = if is_error f then h else heard (item f) h

  pub history : List Event → List A → List A
  unfolding received
  history [] h = h
  history (message text ∷ es) h = history es (received (parse text) h)
  history (reopen ∷ es) h = history es (if resets then [] else h)
  history (clear ∷ es) h = history es []
  history (_ ∷ es) h = history es h

  append_item-last :
      (o : Option A) (v : View A) (h : List A)
      → v.lines ≡ last max_lines h
      → (append_item o v).lines ≡ last max_lines (heard o h)
  unfolding append_item heard
  append_item-last none v h e = e
  append_item-last (some x) v h e =
      ap (λ l. push_capped max_lines l x) e ∙ push_capped-last max_lines h x

  on_frame-last :
      (f : F) (v : View A) (h : List A)
      → v.lines ≡ last max_lines h
      → (on_frame feed f v).lines ≡ last max_lines (received (some f) h)
  unfolding on_frame received
  on_frame-last f v h e = elim (Bool-cases (is_error f)) [
    | inl bad ↦ rw bad e
    | inr fine ↦ rw fine (append_item-last (item f) v h e)
  ]

  on_message-last :
      (o : Option F) (v : View A) (h : List A)
      → v.lines ≡ last max_lines h
      → (on_message feed o v).lines ≡ last max_lines (received o h)
  unfolding on_message received
  on_message-last none v h e = e
  on_message-last (some f) v h e = on_frame-last f v h e

  run-last :
      (es : List Event) (v : View A) (h : List A)
      → v.lines ≡ last max_lines h
      → (run feed es v).lines ≡ last max_lines (history es h)
  unfolding run step history
  run-last [] v h e = e
  run-last (message text ∷ es) v h e =
      run-last es (on_message feed (parse text) v) (received (parse text) h)
        (on_message-last (parse text) v h e)
  run-last (reopen ∷ es) v h e = run-last es _ _ (reopened (Bool-cases resets))
    where
      reopened :
          (resets ≡ true) ⊎ (resets ≡ false)
          → (step feed reopen v).lines ≡ last max_lines (if resets then [] else h)
      reopened (inl yes_) = ground arith
      reopened (inr no_) = ground arith
  run-last (clear ∷ es) v h e = run-last es (step feed clear v) [] refl
  run-last (socket_error ∷ es) v h e = run-last es (step feed socket_error v) h e
  run-last (toggle_pause ∷ es) v h e = run-last es (step feed toggle_pause v) h e

  -- After any messages, errors, reconnections, pauses and clears, a live view shows exactly the last
  -- 1000 of the items received since it was last emptied, in the order of their arrival. A message
  -- that does not parse and a frame that reports an error add nothing.
  pub view-last :
      (es : List Event) → (run feed es empty_view).lines ≡ last max_lines (history es [])
  view-last es = run-last es empty_view [] refl

  -- No view ever holds more than 1000 lines.
  pub view_bounded : (es : List Event) → length (run feed es empty_view).lines ≤ max_lines
  view_bounded es = rw (view-last es) (length-last max_lines (history es []))
