-- ===== src/Containers/Groups.antt =====
-- What the groups of web/src/routes/Containers.tsx contain, and their order.
use mathlib.Core.List.{Perm, perm_middle}
use mathlib.Core.List.Perm
use control_room.Base.{
  String, List, [], ◌∷◌, ◌++◌, append_assoc, ◌is◌, All, ◌≡◌, ◌≢◌, refl, arith, eq_iff, Bool-cases,
  inl, inr, All-append,
}
use control_room.Queries.Types.{ContainerSummary}
use control_room.Containers.{ProjectGroup, push_bucket, fill_buckets}

-- The containers of the groups, in their order.
unfoldable pub members : List ProjectGroup → List ContainerSummary
members [] = []
members (g ∷ gs) = g.containers ++ members gs

-- A group is of one project, and has a container.
pub record IsGroup (g : ProjectGroup) : Type 0 where
  pub nonempty : g.containers ≢ []
  pub uniform : All (λ c. c.compose_project ≡ g.project) g.containers

-- No two groups are of the same project.
pub data Distinct : List ProjectGroup → Type 0 where
  nil : Distinct []
  cons :
      (g : ProjectGroup) (gs : List ProjectGroup)
      → All (λ h. g.project ≢ h.project) gs
      → Distinct gs
      → Distinct (g ∷ gs)

-- The group of the standalone containers is the last one.
abbrev pub StandaloneLast : List ProjectGroup → Type 0
StandaloneLast [] = Unit
StandaloneLast (g ∷ gs) = (g.project ≡ "" → gs ≡ []) × StandaloneLast gs

-- What the page shows of the containers `cs`.
pub record Groups (cs : List ContainerSummary) (gs : List ProjectGroup) : Type 0 where
  pub complete : Perm (members gs) cs
  pub groups : All IsGroup gs
  pub distinct : Distinct gs
  pub last : StandaloneLast gs

push_bucket-members :
    (c : ContainerSummary) (gs : List ProjectGroup)
    → Perm (members (push_bucket c gs)) (c ∷ members gs)
unfolding push_bucket members
push_bucket-members c [] = Perm.refl (c ∷ [])
push_bucket-members c (g ∷ gs) = elim (Bool-cases (g.project is c.compose_project)) [
  | inl e ↦
      rw (e, append_assoc g.containers (c ∷ []) (members gs))
        (perm_middle g.containers (members gs))
  | inr e ↦ rw e (
      Perm.trans (Perm.append_left g.containers (push_bucket-members c gs))
        (perm_middle g.containers (members gs)))
]

append-nonempty : {A : Type 0} (xs : List A) (x : A) → xs ++ (x ∷ []) ≢ []
append-nonempty [] x = ground arith
append-nonempty (y ∷ ys) x = ground arith

push_bucket-groups :
    (c : ContainerSummary) (gs : List ProjectGroup)
    → All IsGroup gs
    → All IsGroup (push_bucket c gs)
unfolding push_bucket
push_bucket-groups c [] h = (record { nonempty = ground arith; uniform = (refl, tt) }, tt)
push_bucket-groups c (g ∷ gs) (h, hs) = elim (Bool-cases (g.project is c.compose_project)) [
  | inl e ↦ rw e (
    record {
      nonempty = append-nonempty g.containers c;
      uniform =
          All-append (λ d. d.compose_project ≡ g.project) g.containers (c ∷ []) h.uniform
            (ground (arith, e, eq_iff g.project c.compose_project), tt);
    },
    hs,
  )
  | inr e ↦ rw e (h, push_bucket-groups c gs hs)
]

push_bucket-others :
    (p : String) (c : ContainerSummary) (gs : List ProjectGroup)
    → p ≢ c.compose_project
    → All (λ h. p ≢ h.project) gs
    → All (λ h. p ≢ h.project) (push_bucket c gs)
unfolding push_bucket
push_bucket-others p c [] n h = (n, tt)
push_bucket-others p c (g ∷ gs) n (h, hs) = elim (Bool-cases (g.project is c.compose_project)) [
  | inl e ↦ rw e (h, hs)
  | inr e ↦ rw e (h, push_bucket-others p c gs n hs)
]

push_bucket-Distinct :
    (c : ContainerSummary) (gs : List ProjectGroup) → Distinct gs → Distinct (push_bucket c gs)
unfolding push_bucket
push_bucket-Distinct c [] nil = cons _ [] tt nil
push_bucket-Distinct c (g ∷ gs) (cons _ _ h hs) =
    elim (Bool-cases (g.project is c.compose_project)) [
      | inl e ↦ rw e (cons (record g { containers = g.containers ++ (c ∷ []) }) gs h hs)
      | inr e ↦ rw e (
          cons g (push_bucket c gs)
            (push_bucket-others g.project c gs
              (λ p. ground (arith, e, p, eq_iff g.project c.compose_project)) h)
            (push_bucket-Distinct c gs hs))
    ]

-- What holds of the buckets while they are filled with `cs`.
pub record Filled (cs : List ContainerSummary) (gs : List ProjectGroup) : Type 0 where
  pub complete : Perm (members gs) cs
  pub groups : All IsGroup gs
  pub distinct : Distinct gs

pub fill_buckets-Filled :
    (cs : List ContainerSummary) (gs : List ProjectGroup) (ds : List ContainerSummary)
    → Filled ds gs
    → Filled (cs ++ ds) (fill_buckets cs gs)
unfolding fill_buckets
fill_buckets-Filled [] gs ds f = f
fill_buckets-Filled (c ∷ cs) gs ds f =
    let next = fill_buckets-Filled cs (push_bucket c gs) (c ∷ ds) (record {
      complete = Perm.trans (push_bucket-members c gs) (Perm.cons c f.complete);
      groups = push_bucket-groups c gs f.groups;
      distinct = push_bucket-Distinct c gs f.distinct;
    }) in
    record {
      complete = Perm.trans next.complete (perm_middle cs ds);
      groups = next.groups;
      distinct = next.distinct;
    }
