-- ===== src/Cluster/Secret/Hiding.antt =====
-- What the button of a row of web/src/components/k8s/SecretDetail.tsx does while all values are revealed.
use control_room.Base.{
  String, Bool, true, false, not, List, [], ◌∷◌, map, Option, some, ◌is◌, is_some, Ordering, ◌≡◌,
  ◌≢◌, refl, arith, ap, ◌∙◌, Bool-cases, inl, inr,
}
use control_room.Queries.K8sTypes.{K8sSecretDetail}
use control_room.Cluster.Secret.{
  View, Row, masked, press_all, press_row, at_key, find_row, display, step, run, cell, cells,
}

-- What the button of a row does to it.
abbrev flipped : Row → Row
flipped r = record r { revealed = not r.revealed }

module _ (parse_pretty : String → Option String) (locale_compare : String → String → Ordering) where
  find_row-at_key :
      (f : Row → Row) (k : String) (rs : List Row) (r : Row)
      → ((q : Row) → (f q).secret_key ≡ q.secret_key)
      → find_row k rs ≡ some r
      → find_row k (at_key f k rs) ≡ some (f r)
  unfolding find_row at_key
  find_row-at_key f k [] r g p = absurd (ground (arith, p))
  find_row-at_key f k (q ∷ rs) r g p = elim (Bool-cases (q.secret_key is k)) [
    | inl e ↦ ground (arith, e, p, g q)
    | inr e ↦ rw (e, e) (find_row-at_key f k rs r g (ground (arith, e, p)))
  ]

  cells-press_row :
      (k : String) (rs : List Row)
      → map (cell parse_pretty locale_compare true) (at_key flipped k rs)
        ≡ map (cell parse_pretty locale_compare true) rs
  unfolding at_key cell display
  cells-press_row k [] = refl
  cells-press_row k (r ∷ rs) = elim (Bool-cases (r.secret_key is k)) [
    | inl e ↦ rw e (ap (λ cs. cell parse_pretty locale_compare true r ∷ cs) (cells-press_row k rs))
    | inr e ↦ rw e (ap (λ cs. cell parse_pretty locale_compare true r ∷ cs) (cells-press_row k rs))
  ]

  same_cells :
      (all : Bool) (k : String) (rs : List Row)
      → all ≡ true
      → map (cell parse_pretty locale_compare all) (at_key flipped k rs)
        ≡ map (cell parse_pretty locale_compare all) rs
  same_cells all k rs h = rw h (cells-press_row k rs)

  -- Pressing the button of a row and then the one for all values.
  pressed :
      (k : String) (s : View)
      → is_some s.detail ≡ true
      → run parse_pretty locale_compare (press_row k ∷ press_all ∷ []) s
        ≡ record s { rows = at_key flipped k s.rows; reveal_all = not s.reveal_all }
  unfolding run step
  pressed k s h = ground (arith, h)

  display-revealed :
      (r : Row) → display parse_pretty locale_compare false (record r { revealed = true }) ≢ masked
  unfolding display
  display-revealed r = ground arith

  -- While all values are revealed, the button "Hide value" of a row changes nothing that is shown; but
  -- the row whose button was pressed once stays revealed after "Hide All".
  pub hide_reveals :
      (k : String) (r : Row) (d : K8sSecretDetail) (s : View)
      → s.reveal_all ≡ true
      → s.detail ≡ some d
      → find_row k s.rows ≡ some r
      → r.revealed ≡ false
      → (cells parse_pretty locale_compare (run parse_pretty locale_compare (press_row k ∷ []) s)
          ≡ cells parse_pretty locale_compare s)
        × (let t = run parse_pretty locale_compare (press_row k ∷ press_all ∷ []) s in
            (t.reveal_all ≡ false)
            × (find_row k t.rows ≡ some (record r { revealed = true }))
            × (display parse_pretty locale_compare false (record r { revealed = true }) ≢ masked))
  hide_reveals k r d s a b c h = (
    unfold cells in unfold run in unfold step in same_cells s.reveal_all k s.rows a,
    rw (pressed k s (ground (arith, b))) (
      ground (arith, a),
      find_row-at_key flipped k s.rows r (λ q. refl) c
          ∙ ap (λ z. some (record r { revealed = not z })) h,
      display-revealed r,
    ),
  )
