-- ===== src/Routes/Freshness.antt =====
-- Which advertisements a node merges: only the neighbour's own, and none twice.
use mathlib.Core.Option.{some-injective}
use madoka.Common.{ℕ, ◌<◌, ◌≡◌, ap, sym, ◌∙◌, true, none, some, arith, ◌⊎◌}
use madoka.Bytes.{NodeId, bytes_eq_iff}
use madoka.Routes.Table.{RouteTable}
use madoka.Routes.Advertisement.{RouteAdvertisement}
use madoka.Routes.DistanceVector.{
  RouteOriginState, RouteOriginStates, distance_vector_update, refused, assign, stamp, merged,
}

-- The order in which advertisements of one origin count as newer: by generation, then by sequence.
abbrev pub Newer : RouteOriginState → RouteAdvertisement → Type 0
Newer last adv =
    (last.generation < adv.generation)
    ⊎ ((last.generation ≡ adv.generation) × (last.sequence < adv.sequence_number))

abbrev pub IsFresh : RouteOriginStates → RouteAdvertisement → Type 0
IsFresh origins adv = elim (origins adv.sender) [ none ↦ Unit | some last ↦ Newer last adv ]

blocked_of_not-Newer :
    (table : RouteTable) (neighbor : NodeId) (old : RouteAdvertisement) (now cost : ℕ)
    (origins : RouteOriginStates) (last : RouteOriginState)
    → origins old.sender ≡ some last
    → ¬ Newer last old
    → distance_vector_update table neighbor old now cost (some origins)
      ≡ refused table (some origins)
unfolding distance_vector_update
blocked_of_not-Newer table neighbor old now cost origins last e n = ground arith

known_of_accepted :
    (table : RouteTable) (neighbor : NodeId) (adv : RouteAdvertisement) (now cost : ℕ)
    (origins : RouteOriginStates)
    → (distance_vector_update table neighbor adv now cost (some origins)).accepted ≡ true
    → (distance_vector_update table neighbor adv now cost (some origins)).known
      ≡ some (assign origins adv.sender (stamp adv))
unfolding distance_vector_update merged
known_of_accepted table neighbor adv now cost origins h = ground arith

-- Merging is safe against replays: after an accepted advertisement, with the states it leaves,
-- any advertisement of the same sender that is no newer is refused, whatever the table, the time
-- and the link cost.
distance_vector_update_replay :
    (table other : RouteTable) (neighbor : NodeId) (adv old : RouteAdvertisement)
    (now later cost cost' : ℕ) (origins after : RouteOriginStates)
    → (distance_vector_update table neighbor adv now cost (some origins)).accepted ≡ true
    → (distance_vector_update table neighbor adv now cost (some origins)).known ≡ some after
    → old.sender ≡ adv.sender
    → ¬ Newer (stamp adv) old
    → distance_vector_update other neighbor old later cost' (some after)
      ≡ refused other (some after)
unfolding assign
distance_vector_update_replay table other neighbor adv old now later cost cost' origins after h k e
      n =
    blocked_of_not-Newer other neighbor old later cost' after (stamp adv)
      (ap (λ (f : RouteOriginStates). f old.sender) same
        ∙ ground (arith, e, bytes_eq_iff adv.sender old.sender))
      n
  where
    same : after ≡ assign origins adv.sender (stamp adv)
    same = some-injective _ _ (sym k ∙ known_of_accepted table neighbor adv now cost origins h)
