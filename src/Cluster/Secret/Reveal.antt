-- ===== src/Cluster/Secret/Reveal.antt =====
-- When web/src/components/k8s/SecretDetail.tsx shows a value, and when it shows the mask.
use control_room.Base.{
  String, Bool, false, List, [], ◌∷◌, ◌++◌, map, Option, none, some, ◌is◌, is_some, Ordering, All,
  ◌≡◌, refl, arith, Bool-cases, inl, inr,
}
use control_room.Cluster.Secret.{
  View, Row, Event, Shown, masked, select, close, loaded, press_all, press_row, copy, copy_timeout,
  closed_view, at_key, find_row, with_value, row_for, display, data_entries, step, run, cell, cells,
}

-- Events that reveal nothing: the secret is read, and values are copied.
abbrev pub IsQuiet : Event → Type 0
IsQuiet (select ns n) = ⊥
IsQuiet close = Unit
IsQuiet (loaded d) = Unit
IsQuiet press_all = ⊥
IsQuiet (press_row k) = ⊥
IsQuiet (copy k c) = Unit
IsQuiet (copy_timeout k) = Unit

-- No value is revealed.
record Hidden (s : View) : Type 0 where
  all : s.reveal_all ≡ false
  rows : All (λ r. r.revealed ≡ false) s.rows

at_key-Hidden :
    (f : Row → Row) (k : String) (rs : List Row)
    → ((r : Row) → (f r).revealed ≡ r.revealed)
    → All (λ r. r.revealed ≡ false) rs
    → All (λ r. r.revealed ≡ false) (at_key f k rs)
unfolding at_key
at_key-Hidden f k [] g h = tt
at_key-Hidden f k (r ∷ rs) g (h, hs) = (ground (arith, h, g r), at_key-Hidden f k rs g hs)

find_row-Hidden :
    (k : String) (rs : List Row) (r : Row)
    → All (λ r. r.revealed ≡ false) rs
    → find_row k rs ≡ some r
    → r.revealed ≡ false
unfolding find_row
find_row-Hidden k [] r h p = absurd (ground (arith, p))
find_row-Hidden k (q ∷ rs) r (h, hs) p = elim (Bool-cases (q.secret_key is k)) [
  | inl e ↦ ground (arith, e, p, h)
  | inr e ↦ find_row-Hidden k rs r hs (ground (arith, e, p))
]

with_value-Hidden :
    (o : Option Row) (k v : String)
    → ((r : Row) → o ≡ some r → r.revealed ≡ false)
    → (with_value o k v).revealed ≡ false
unfolding with_value
with_value-Hidden none k v h = refl
with_value-Hidden (some r) k v h = h r refl

row_for-Hidden :
    (old : List Row) (e : String × String)
    → All (λ r. r.revealed ≡ false) old
    → (row_for old e).revealed ≡ false
unfolding row_for
row_for-Hidden old (k, v) h =
    with_value-Hidden (find_row k old) k v (λ r p. find_row-Hidden k old r h p)

rows_for-Hidden :
    (old : List Row) (es : List (String × String))
    → All (λ r. r.revealed ≡ false) old
    → All (λ r. r.revealed ≡ false) (map (row_for old) es)
rows_for-Hidden old [] h = tt
rows_for-Hidden old (e ∷ es) h = (row_for-Hidden old e h, rows_for-Hidden old es h)

module _ (parse_pretty : String → Option String) (locale_compare : String → String → Ordering) where
  step-Hidden :
      (e : Event) (s : View) → IsQuiet e → Hidden s → Hidden (step parse_pretty locale_compare e s)
  unfolding step
  step-Hidden close s q h = record { all = refl; rows = tt }
  step-Hidden (loaded d) s q h = elim (Bool-cases (is_some s.secret)) [
    | inl e ↦ rw e (record {
      all = h.all;
      rows = rows_for-Hidden s.rows (data_entries parse_pretty locale_compare d) h.rows;
    })
    | inr e ↦ rw e h
  ]
  step-Hidden (copy k c) s q h = record {
    all = h.all;
    rows = at_key-Hidden _ k s.rows (λ r. refl) h.rows;
  }
  step-Hidden (copy_timeout k) s q h = record {
    all = h.all;
    rows = at_key-Hidden _ k s.rows (λ r. refl) h.rows;
  }
  step-Hidden (select ns n) s q h = absurd q
  step-Hidden press_all s q h = absurd q
  step-Hidden (press_row k) s q h = absurd q

  run-Hidden :
      (es : List Event) (s : View)
      → All IsQuiet es
      → Hidden s
      → Hidden (run parse_pretty locale_compare es s)
  unfolding run
  run-Hidden [] s q h = h
  run-Hidden (e ∷ es) s (q, qs) h =
      run-Hidden es (step parse_pretty locale_compare e s) qs (step-Hidden e s q h)

  run-append :
      (es fs : List Event) (s : View)
      → run parse_pretty locale_compare (es ++ fs) s
        ≡ run parse_pretty locale_compare fs (run parse_pretty locale_compare es s)
  unfolding run
  run-append [] fs s = refl
  run-append (e ∷ es) fs s = run-append es fs (step parse_pretty locale_compare e s)

  cells-masked :
      (all : Bool) (rs : List Row)
      → all ≡ false
      → All (λ r. r.revealed ≡ false) rs
      → All (λ (c : String × Shown). c.1 ≡ masked) (map (cell parse_pretty locale_compare all) rs)
  unfolding cell display
  cells-masked all [] p h = tt
  cells-masked all (r ∷ rs) p (h, hs) = (rw (p, h) refl, cells-masked all rs p hs)

  reopened :
      (ns n : String) (es : List Event) (s : View)
      → run parse_pretty locale_compare (close ∷ select ns n ∷ es) s
        ≡ run parse_pretty locale_compare es (record closed_view { secret = some (ns, n) })
  unfolding run step
  reopened ns n es s = refl

  -- However the sheet was used before, once it was closed, every value of the secret that is opened
  -- next is masked, while it is read, read again and copied, until one is revealed.
  pub masked_until_revealed :
      (before : List Event) (ns n : String) (es : List Event) (s : View)
      → All IsQuiet es
      → All
          (λ (c : String × Shown). c.1 ≡ masked)
          (cells parse_pretty locale_compare
            (run parse_pretty locale_compare (before ++ (close ∷ select ns n ∷ es)) s))
  unfolding cells
  masked_until_revealed before ns n es s q =
      let t = run parse_pretty locale_compare before s in
      let start = record closed_view { secret = some (ns, n) } in
      let hidden = run-Hidden es start q (record { all = refl; rows = tt }) in
      rw (run-append before (close ∷ select ns n ∷ es) s, reopened ns n es t)
        (cells-masked _ (run parse_pretty locale_compare es start).rows hidden.all hidden.rows)
