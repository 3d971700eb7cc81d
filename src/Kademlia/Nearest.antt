-- ===== src/Kademlia/Nearest.antt =====
-- The contacts that a search for the closest ones returns.
use madoka.Common.{
  ℕ, zero, suc, ◌≤◌, ◌≡◌, refl, ap, Bool, false, List, [], ◌∷◌, arith, length, take, ltb, ◌==◌, not,
  if◌then◌else◌, All, count_if,
}
use madoka.Bytes.{NodeId}
use madoka.Kademlia.{NodeContact, KademliaTable}
use madoka.Kademlia.Closest.{closer, gather, place, sort_by_distance, kademlia_find_closest}

-- `a` is no farther from the target than `b`.
abbrev pub NoFarther : NodeId → NodeContact → NodeContact → Type 0
NoFarther target a b = closer target b.id a.id ≡ false

-- The comparison of one byte, before that of the rest.
abbrev lex : ℕ → ℕ → Bool → Bool
lex p q rest = if not (p == q) then ltb p q else rest

abbrev pub Sorted : NodeId → List NodeContact → Type 0
Sorted target [] = Unit
Sorted target (c ∷ cs) = All (NoFarther target c) cs × Sorted target cs

-- Ids as long as the target's.
abbrev pub Fits : NodeId → NodeContact → Type 0
Fits target c = length c.id ≡ length target

module _ (target : NodeId) where
  pub place-All :
      (P : NodeContact → Type 0) (c : NodeContact) (cs : List NodeContact)
      → P c
      → All P cs
      → All P (place target c cs)
  unfolding place
  place-All P c [] h k = (h, tt)
  place-All P c (d ∷ ds) h k = ground (arith, place-All P c ds h k.1)

  count-place :
      (p : NodeContact → Bool) (c : NodeContact) (cs : List NodeContact)
      → count_if p (place target c cs) ≡ count_if p (c ∷ cs)
  unfolding place count_if
  count-place p c [] = refl
  count-place p c (d ∷ ds) = ground (arith, count-place p c ds)

  pub count-sort :
      (p : NodeContact → Bool) (cs : List NodeContact)
      → count_if p (sort_by_distance target cs) ≡ count_if p cs
  unfolding sort_by_distance count_if
  count-sort p [] = refl
  count-sort p (c ∷ cs) =
      ground (arith, count-place p c (sort_by_distance target cs), count-sort p cs)

take-all : (n : ℕ) (cs : List NodeContact) → length cs ≤ n → take n cs ≡ cs
take-all zero [] h = refl
take-all zero (c ∷ cs) h = absurd (omega arith)
take-all (suc n) [] h = refl
take-all (suc n) (c ∷ cs) h = ap (◌∷◌ c) (take-all n cs (omega arith))

-- The answer is the beginning of the sorted contacts, whether or not there are enough of them.
pub find_closest-take :
    (t : KademliaTable) (target : NodeId) (count : ℕ)
    → kademlia_find_closest t target count ≡ take count (sort_by_distance target (gather t.buckets))
unfolding kademlia_find_closest
find_closest-take t target count =
    let all = sort_by_distance target (gather t.buckets) in ground (arith, take-all count all)
