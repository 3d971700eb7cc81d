-- ===== src/Trust/Address.antt =====
-- Which ids may be trusted by their virtual addresses.
use madoka.Common.{
  ◌≡◌, ◌≢◌, ◌⊎◌, refl, Bool, true, false, ◌&&◌, ◌||◌, List, [], ◌∷◌, arith, any_of, not, All,
}
use madoka.Bytes.{NodeId, IPv6, bytes_eq, bytes_eq_iff, bytes_eq-ne, virtual_address}
use madoka.Trust.{TrustedPeer, TrustState, trust_address_available}

-- A peer that is the candidate, or has another virtual address.
abbrev KeepsApart : IPv6 → NodeId → TrustedPeer → Type 0
KeepsApart network candidate p =
    (p.id ≡ candidate) ⊎ (virtual_address network p.id ≢ virtual_address network candidate)

apart_or :
    (network : IPv6) (candidate : NodeId) (p : TrustedPeer)
    → (not (bytes_eq p.id candidate)
        && bytes_eq (virtual_address network p.id) (virtual_address network candidate))
      ≡ false
    → KeepsApart network candidate p
apart_or network candidate p h =
    let other = virtual_address network p.id in
    let own = virtual_address network candidate in
    ground (arith, h, bytes_eq_iff p.id candidate, bytes_eq-ne other own)

or_false : (a b : Bool) → (a || b) ≡ false → (a ≡ false) × (b ≡ false)
or_false true b h = absurd cc
or_false false b h = (refl, h)

all_apart :
    (network : IPv6) (candidate : NodeId) (ps : List TrustedPeer)
    → any_of
        (λ (p : TrustedPeer).
          not (bytes_eq p.id candidate)
          && bytes_eq (virtual_address network p.id) (virtual_address network candidate))
        ps
      ≡ false
    → All (KeepsApart network candidate) ps
unfolding any_of
all_apart network candidate [] h = tt
all_apart network candidate (p ∷ ps) h =
    let (own, rest) = or_false _ _ h in
    (apart_or network candidate p own, all_apart network candidate ps rest)

available-reads :
    (s : TrustState) (network : IPv6) (local candidate : NodeId)
    → trust_address_available s network local candidate ≡ true
    → (bytes_eq candidate local ≡ false)
      × (bytes_eq (virtual_address network candidate) (virtual_address network local) ≡ false)
      × (any_of
            (λ (p : TrustedPeer).
              not (bytes_eq p.id candidate)
              && bytes_eq (virtual_address network p.id) (virtual_address network candidate))
            s.peers
          ≡ false)
unfolding trust_address_available
available-reads s network local candidate h = ground (arith, h)

-- An address that is available for an id is no one else's: the id is not the local one, the local
-- node has another virtual address, and so has every trusted peer of another id.
address_available_lem :
    (s : TrustState) (network : IPv6) (local candidate : NodeId)
    → trust_address_available s network local candidate ≡ true
    → (candidate ≢ local)
      × (virtual_address network candidate ≢ virtual_address network local)
      × All (KeepsApart network candidate) s.peers
address_available_lem s network local candidate h =
    let (id, address, others) = available-reads s network local candidate h in
    (
      bytes_eq-ne candidate local id,
      bytes_eq-ne (virtual_address network candidate) (virtual_address network local) address,
      all_apart network candidate s.peers others,
    )
