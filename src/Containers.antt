-- ===== src/Containers.antt =====
-- web/src/routes/Containers.tsx: the search and the grouping of the containers by compose project.
-- `lower` is `toLowerCase` and `locale_compare` the sign of `localeCompare`.
pub mod Entry
pub mod Env
pub mod Detail
pub mod Groups
pub mod Order
pub mod Menu
pub mod Live
use Prim.Native.Nat.Ordering.{gt}
use control_room.Base.{
  String, Bool, true, false, not, ◌&&◌, ◌||◌, List, [], ◌∷◌, ◌++◌, map, any, keep, Ordering, ◌is◌,
  if◌then◌else◌, sort_by, insert_sorted, includes,
}
use control_room.Setup.{trim}
use control_room.Queries.Types.{ContainerSummary}

pub record ProjectGroup : Type 0 where
  pub project : String
  pub containers : List ContainerSummary

abbrev pub is_gt : Ordering → Bool
is_gt o = elim o [ gt ↦ true | _ ↦ false ]

-- `buckets.set(key, arr)` after `arr.push(c)`: a map keeps the order in which its keys came.
unfoldable pub push_bucket : ContainerSummary → List ProjectGroup → List ProjectGroup
push_bucket c [] = record { project = c.compose_project; containers = c ∷ [] } ∷ []
push_bucket c (g ∷ gs) =
    let rest = push_bucket c gs in
    if g.project is c.compose_project
    then record g { containers = g.containers ++ (c ∷ []) } ∷ gs
    else g ∷ rest

-- The loop over the filtered containers.
unfoldable pub fill_buckets : List ContainerSummary → List ProjectGroup → List ProjectGroup
unfolding push_bucket
fill_buckets [] gs = gs
fill_buckets (c ∷ cs) gs = fill_buckets cs (push_bucket c gs)

module _ (lower : String → String) (locale_compare : String → String → Ordering) where
  unfoldable pub matches : String → ContainerSummary → Bool
  unfolding includes
  matches needle c =
      any (λ s. includes (lower s) needle)
        (keep (λ s. not (s is "")) (c.name ∷ c.image ∷ c.compose_project ∷ c.compose_service ∷ []))

  unfoldable pub filtered : List ContainerSummary → String → List ContainerSummary
  unfolding matches
  filtered list search =
      let needle = lower (trim search) in if needle is "" then list else keep (matches needle) list

  -- The order of the groups: standalone containers, with the empty key, come last.
  unfoldable pub group_after : ProjectGroup → ProjectGroup → Bool
  group_after g h =
      if g.project is "" && not (h.project is "")
      then true
      else if h.project is "" && not (g.project is "")
      then false
      else is_gt (locale_compare g.project h.project)

  unfoldable pub container_after : ContainerSummary → ContainerSummary → Bool
  container_after c d = is_gt (locale_compare c.name d.name)

  unfoldable pub with_sorted : ProjectGroup → ProjectGroup
  unfolding sort_by container_after
  with_sorted g = record g { containers = sort_by container_after g.containers }

  unfoldable pub group_by_project : List ContainerSummary → String → List ProjectGroup
  unfolding filtered fill_buckets sort_by group_after with_sorted
  group_by_project list search =
      map with_sorted (sort_by group_after (fill_buckets (filtered list search) []))
