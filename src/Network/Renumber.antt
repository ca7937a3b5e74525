-- ===== src/Network/Renumber.antt =====
-- What deleting rules in web/src/routes/Network.tsx does to the rules of the firewall, whose server
-- removes the rule at a given place, counted from 1.
use control_room.Base.{
  ℕ, suc, String, true, List, [], ◌∷◌, ◌++◌, append_assoc, length, length-append, ◌≡◌, arith,
}
use control_room.Queries.Types.{Number, UfwRule}
use control_room.Queries.Mutations.{Mutation, delete_rule}
use control_room.Network.{FirewallCard, press_delete, step, run}

-- A rule without its number.
pub record Rule : Type 0 where
  pub target : String
  pub action : String
  pub source : String

module _ (print : ℕ → Number) (remove : Number → List Rule → List Rule) where
  -- A rule as the page shows it at the place `n`.
  abbrev pub listed : ℕ → Rule → UfwRule
  listed n r = record { index = print n; target = r.target; action = r.action; source = r.source }

  -- The listing of the rules, numbered from `n`.
  abbrev pub listing : ℕ → List Rule → List UfwRule
  listing n [] = []
  listing n (r ∷ rs) = listed n r ∷ listing (suc n) rs

  -- What the server makes of the requests, the last one first.
  abbrev pub served : List Mutation → List Rule → List Rule
  served [] rules = rules
  served (delete_rule i ∷ ms) rules = remove i (served ms rules)
  served (m ∷ ms) rules = served ms rules

  -- The place of the rule behind `before`.
  abbrev pub place : List Rule → ℕ
  place before = suc (length before)

  -- The server removes the rule at a place.
  abbrev pub Removes : Type 0
  Removes =
      (before : List Rule) (r : Rule) (after : List Rule)
      → remove (print (place before)) (before ++ (r ∷ after)) ≡ before ++ after

  same_place :
      (before between : List Rule) (r q : Rule)
      → place (before ++ (r ∷ between)) ≡ place (before ++ (between ++ (q ∷ [])))
  same_place before between r q = omega (
    arith,
    length-append before (r ∷ between),
    length-append before (between ++ (q ∷ [])),
    length-append between (q ∷ []),
  )

  -- Where the server removes a rule by its place: deleting two rules of one listing, the upper one
  -- first, removes the first rule and, instead of the second one, the rule that stood below it, since
  -- the second request carries a place that the first one has changed.
  pub stale_place_deleted :
      (before between : List Rule) (r q hit : Rule) (after : List Rule) (s : FirewallCard)
      → Removes
      → s.sent ≡ []
      → served
          (run
            (press_delete (listed (place before) r) true
              ∷ press_delete (listed (place (before ++ (r ∷ between))) q) true
              ∷ [])
            s).sent
          (before ++ (r ∷ (between ++ (q ∷ hit ∷ after))))
        ≡ before ++ (between ++ (q ∷ after))
  unfolding run step
  stale_place_deleted before between r q hit after s h k =
      let first = h before r (between ++ (q ∷ hit ∷ after)) in
      let second = h (before ++ (between ++ (q ∷ []))) hit after in
      rw (k, first, same_place before between r q) (simp (append_assoc) at second)
