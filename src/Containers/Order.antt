-- ===== src/Containers/Order.antt =====
-- The order in which web/src/routes/Containers.tsx shows the groups, and what they contain.
use mathlib.Core.List.{Perm, perm_middle}
use mathlib.Core.List.Perm
use control_room.Base.{
  String, Bool, List, [], ◌∷◌, ◌++◌, map, append-nil, sort_by, insert_sorted, sort_by-perm,
  sort_by-All, insert_sorted-All, All, Ordering, ◌≡◌, ◌≢◌, refl, arith, eq_iff, Bool-cases, inl,
  inr, sym, subst, ap,
}
use control_room.Queries.Types.{ContainerSummary}
use control_room.Containers.{
  ProjectGroup, fill_buckets, filtered, group_after, container_after, with_sorted, group_by_project,
}
use control_room.Containers.Groups.{
  members, IsGroup, Distinct, nil, cons, StandaloneLast, Groups, fill_buckets-Filled,
}

swap_front : (xs ys zs : List ContainerSummary) → Perm (xs ++ (ys ++ zs)) (ys ++ (xs ++ zs))
swap_front [] ys zs = Perm.refl (ys ++ zs)
swap_front (x ∷ xs) ys zs =
    Perm.trans (Perm.cons x (swap_front xs ys zs)) (Perm.symm (perm_middle ys (xs ++ zs)))

module _ (after : ProjectGroup → ProjectGroup → Bool) where
  insert_sorted-members :
      (g : ProjectGroup) (gs : List ProjectGroup)
      → Perm (members (insert_sorted after g gs)) (g.containers ++ members gs)
  unfolding insert_sorted members
  insert_sorted-members g [] = Perm.refl (g.containers ++ [])
  insert_sorted-members g (h ∷ hs) = elim (Bool-cases (after g h)) [
    | inl e ↦ rw e (
        Perm.trans (Perm.append_left h.containers (insert_sorted-members g hs))
          (swap_front h.containers g.containers (members hs)))
    | inr e ↦ rw e (Perm.refl (g.containers ++ (h.containers ++ members hs)))
  ]

  sort_by-members : (gs : List ProjectGroup) → Perm (members (sort_by after gs)) (members gs)
  unfolding sort_by members
  sort_by-members [] = Perm.refl []
  sort_by-members (g ∷ gs) =
      Perm.trans (insert_sorted-members g (sort_by after gs))
        (Perm.append_left g.containers (sort_by-members gs))

  insert_sorted-Distinct :
      (g : ProjectGroup) (gs : List ProjectGroup)
      → All (λ h. g.project ≢ h.project) gs
      → Distinct gs
      → Distinct (insert_sorted after g gs)
  unfolding insert_sorted
  insert_sorted-Distinct g [] h d = cons g [] tt nil
  insert_sorted-Distinct g (k ∷ ks) (h, hs) (cons _ _ d ds) = elim (Bool-cases (after g k)) [
    | inl e ↦ rw e (
        cons k (insert_sorted after g ks)
          (insert_sorted-All after (λ l. k.project ≢ l.project) g ks (λ p. h (sym p)) d)
          (insert_sorted-Distinct g ks hs ds))
    | inr e ↦ rw e (cons g (k ∷ ks) (h, hs) (cons k ks d ds))
  ]

  sort_by-Distinct : (gs : List ProjectGroup) → Distinct gs → Distinct (sort_by after gs)
  unfolding sort_by
  sort_by-Distinct [] nil = nil
  sort_by-Distinct (g ∷ gs) (cons _ _ d ds) =
      insert_sorted-Distinct g (sort_by after gs)
        (sort_by-All after (λ h. g.project ≢ h.project) gs d) (sort_by-Distinct gs ds)

module _ (lower : String → String) (locale_compare : String → String → Ordering) where
  insert_sorted-last :
      (g : ProjectGroup) (gs : List ProjectGroup)
      → All (λ h. g.project ≢ h.project) gs
      → StandaloneLast gs
      → StandaloneLast (insert_sorted (group_after lower locale_compare) g gs)
  unfolding insert_sorted group_after
  insert_sorted-last g [] h l = ((λ e. refl), tt)
  insert_sorted-last g (k ∷ ks) (h, hs) (l, ls) =
      elim (Bool-cases (group_after lower locale_compare g k)) [
        | inl e ↦ rw e (
          (λ p. absurd (ground (arith, e, p, h, eq_iff g.project "", eq_iff k.project ""))),
          insert_sorted-last g ks hs ls,
        )
        | inr e ↦ rw e (
          (λ p. absurd (ground (arith, e, p, h, eq_iff g.project "", eq_iff k.project ""))),
          (l, ls),
        )
      ]

  sort_by-last :
      (gs : List ProjectGroup)
      → Distinct gs
      → StandaloneLast (sort_by (group_after lower locale_compare) gs)
  unfolding sort_by
  sort_by-last [] nil = tt
  sort_by-last (g ∷ gs) (cons _ _ d ds) =
      let after = group_after lower locale_compare in
      insert_sorted-last g (sort_by after gs) (sort_by-All after (λ h. g.project ≢ h.project) gs d)
        (sort_by-last gs ds)

  abbrev tidied : List ProjectGroup → List ProjectGroup
  tidied gs = map (with_sorted lower locale_compare) gs

  tidied-members : (gs : List ProjectGroup) → Perm (members (tidied gs)) (members gs)
  unfolding members with_sorted
  tidied-members [] = Perm.refl []
  tidied-members (g ∷ gs) =
      Perm.append (sort_by-perm (container_after lower locale_compare) g.containers)
        (tidied-members gs)

  tidied-groups : (gs : List ProjectGroup) → All IsGroup gs → All IsGroup (tidied gs)
  unfolding with_sorted
  tidied-groups [] h = tt
  tidied-groups (g ∷ gs) (h, hs) =
      let after = container_after lower locale_compare in
      (
        record {
          nonempty = λ e. h.nonempty (
              sym (
                Perm.nil-eq
                  (subst (λ cs. Perm cs g.containers) e (sort_by-perm after g.containers))));
          uniform = sort_by-All after (λ c. c.compose_project ≡ g.project) g.containers h.uniform;
        },
        tidied-groups gs hs,
      )

  tidied-others :
      (p : String) (gs : List ProjectGroup)
      → All (λ h. p ≢ h.project) gs
      → All (λ h. p ≢ h.project) (tidied gs)
  unfolding with_sorted
  tidied-others p [] h = tt
  tidied-others p (g ∷ gs) (h, hs) = (h, tidied-others p gs hs)

  tidied-Distinct : (gs : List ProjectGroup) → Distinct gs → Distinct (tidied gs)
  unfolding with_sorted
  tidied-Distinct [] nil = nil
  tidied-Distinct (g ∷ gs) (cons _ _ d ds) =
      cons (with_sorted lower locale_compare g) (tidied gs) (tidied-others g.project gs d)
        (tidied-Distinct gs ds)

  tidied-last : (gs : List ProjectGroup) → StandaloneLast gs → StandaloneLast (tidied gs)
  unfolding with_sorted
  tidied-last [] l = tt
  tidied-last (g ∷ gs) (l, ls) = ((λ e. ap tidied (l e)), tidied-last gs ls)

  -- The groups that the page shows for a search contain exactly the containers that match it, each as
  -- often as the list has it; no group is empty, each has containers of its own project only, no two
  -- are of the same project, and the standalone containers come last.
  pub group_by_project-Groups :
      (list : List ContainerSummary) (text : String)
      → Groups
          (filtered lower locale_compare list text)
          (group_by_project lower locale_compare list text)
  unfolding group_by_project members
  group_by_project-Groups list text =
      let cs = filtered lower locale_compare list text in
      let after = group_after lower locale_compare in
      let f =
        fill_buckets-Filled cs [] []
          (record { complete = Perm.refl []; groups = tt; distinct = nil }) in
      let buckets = fill_buckets cs [] in
      let sorted = sort_by after buckets in
      record {
        complete = Perm.trans (tidied-members sorted) (
            Perm.trans (sort_by-members after buckets)
              (subst (λ ds. Perm (members buckets) ds) (append-nil cs) f.complete));
        groups = tidied-groups sorted (sort_by-All after IsGroup buckets f.groups);
        distinct = tidied-Distinct sorted (sort_by-Distinct after buckets f.distinct);
        last = tidied-last sorted (sort_by-last buckets f.distinct);
      }
