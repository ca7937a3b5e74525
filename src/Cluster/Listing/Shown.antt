-- ===== src/Cluster/Listing/Shown.antt =====
-- What a list of web/src/components/k8s shows, against what it is given.
use text.Mathlib.TextLemmas.{append-eq-nil_iff}
use control_room.Base.{
  String, Bool, true, false, List, [], ◌∷◌, keep, Option, none, some, ◌is◌, ◌<>◌, if◌then◌else◌,
  ◌≡◌, ◌≢◌, refl, arith, eq_iff, All, inl, inr, Bool-cases, ap, sym, ◌∙◌,
}
use control_room.Queries.K8sTypes.{K8sNode, K8sPod, K8sService}
use control_room.Cluster.Lists.{filtered, nodes, pods, services, named, placed}
use control_room.Cluster.Listing.{
  Listing, waiting, failed, message, table, failure, found, listing, node_list, pod_list,
  service_list,
}

module _ {A : Type 0} (matches : A → Bool) (list : List A) where
  -- What is shown of a list: that it loads; a text for an error, which is not empty; that there are no
  -- objects, or that none of them matches; or a table of exactly the objects that match.
  pub data Shown : Bool → Option String → Listing A → Type 0 where
    loading : (error : Option String) → Shown true error waiting
    error : (m t : String) → t ≢ "" → Shown false (some m) (failed t)
    empty : (t : String) → list ≡ [] → Shown false none (message t)
    unmatched :
        (t : String) → list ≢ [] → All (λ a. matches a ≡ false) list → Shown false none (message t)
    rows : (kept : List A) → kept ≢ [] → kept ≡ keep matches list → Shown false none (table kept)

keep-nil :
    {A : Type 0} (matches : A → Bool) (list : List A)
    → keep matches list ≡ []
    → All (λ a. matches a ≡ false) list
keep-nil matches [] h = tt
keep-nil matches (a ∷ list) h = elim (Bool-cases (matches a)) [
  | inl e ↦ absurd (ground (arith, h, e))
  | inr e ↦ (e, keep-nil matches list (ground (arith, h, e)))
]

found-Shown :
    {A : Type 0} (objects : String) (matches : A → Bool) (list kept : List A)
    → kept ≡ keep matches list
    → Shown matches list false none (found objects list kept)
unfolding found
found-Shown objects matches [] [] h = empty _ refl
found-Shown objects matches (a ∷ list) [] h =
    unmatched _ (λ p. ground (arith, p)) (keep-nil matches (a ∷ list) (sym h))
found-Shown objects matches list (k ∷ kept) h = rows (k ∷ kept) (λ p. ground (arith, p)) h

fetch_text-nonempty : (objects : String) → "Could not fetch " <> objects <> "." ≢ ""
fetch_text-nonempty objects p =
    let front : "Could not fetch " ≡ "" = (append-eq-nil_iff.0 p).0 in
    ground (arith, ap (λ s. s is "") front)

failure-blank :
    (objects m : String)
    → (m is "") ≡ true
    → failure objects m ≡ "Could not fetch " <> objects <> "."
unfolding failure
failure-blank objects m e = rw e refl

failure-nonempty : (objects m : String) → failure objects m ≢ ""
unfolding failure
failure-nonempty objects m p = elim (Bool-cases (m is "")) [
  | inl e ↦ fetch_text-nonempty objects (sym (failure-blank objects m e) ∙ p)
  | inr e ↦ ground (arith, p, e, eq_iff m "")
]

listing-Shown :
    {A : Type 0} (objects : String) (matches : A → Bool) (is_loading : Bool) (e : Option String)
    (list kept : List A)
    → kept ≡ keep matches list
    → Shown matches list is_loading e (listing objects is_loading e list kept)
unfolding listing
listing-Shown objects matches true e list kept h = loading e
listing-Shown objects matches false (some m) list kept h = error m _ (failure-nonempty objects m)
listing-Shown objects matches false none list kept h = found-Shown objects matches list kept h

-- An object is listed if nothing is searched for, or if it matches the text.
abbrev pub accepts : {A : Type 0} → (String → String) → (String → A → Bool) → String → A → Bool
accepts lower matches text a = if lower text is "" then true else matches (lower text) a

keep_unless :
    {A : Type 0} (b : Bool) (matches : A → Bool) (list : List A)
    → (if b then list else keep matches list) ≡ keep (λ a. if b then true else matches a) list
keep_unless true matches [] = refl
keep_unless true matches (a ∷ list) = ap (λ l. a ∷ l) (keep_unless true matches list)
keep_unless false matches list = refl

filtered-keep :
    {A : Type 0} (lower : String → String) (matches : String → A → Bool) (text : String)
    (list : List A)
    → filtered lower matches text list ≡ keep (accepts lower matches text) list
unfolding filtered
filtered-keep lower matches text list = keep_unless (lower text is "") (matches (lower text)) list

module _ (lower : String → String) (is_loading : Bool) (e : Option String) (search : String) where
  -- Each state of the list of nodes, for what it is given.
  pub node_list-Shown :
      (ns : List K8sNode)
      → Shown
          (accepts lower (λ needle n. named lower needle n.name) search)
          ns
          is_loading
          e
          (node_list lower is_loading e search ns)
  unfolding node_list nodes
  node_list-Shown ns =
      listing-Shown "nodes" _ is_loading e ns _
        (filtered-keep lower (λ needle n. named lower needle n.name) search ns)

  -- Each state of the list of pods, likewise.
  pub pod_list-Shown :
      (ps : List K8sPod)
      → Shown
          (accepts lower (λ needle p. placed lower needle p.name p.namespace) search)
          ps
          is_loading
          e
          (pod_list lower is_loading e search ps)
  unfolding pod_list pods
  pod_list-Shown ps =
      listing-Shown "pods" _ is_loading e ps _
        (filtered-keep lower (λ needle p. placed lower needle p.name p.namespace) search ps)

  -- Each state of the list of services, likewise.
  pub service_list-Shown :
      (ss : List K8sService)
      → Shown
          (accepts lower (λ needle s. placed lower needle s.name s.namespace) search)
          ss
          is_loading
          e
          (service_list lower is_loading e search ss)
  unfolding service_list services
  service_list-Shown ss =
      listing-Shown "services" _ is_loading e ss _
        (filtered-keep lower (λ needle s. placed lower needle s.name s.namespace) search ss)
