-- ===== src/Trust.antt =====
-- The trusted peers of include/security/invite.hpp and src/security/invite.cpp: a vector that is sorted
-- by id. The files that keep them are the operating system's: what the calls that write them return is
-- given with the operation. Base64 has their encoding, and Invite how an invitation is made and written;
-- the records of these files, and how an invitation is read and consumed, are not modelled.
pub mod Base64
pub mod Invite
pub mod Order
pub mod Table
pub mod Limit
pub mod Address
mod Tests
use madoka.Common.{
  ℕ, ◌+◌, Bool, true, false, ◌&&◌, ◌||◌, List, [], ◌∷◌, ◌++◌, Option, none, some, length, take,
  drop, leb, ◌==◌, if◌then◌else◌, any_of, not,
}
use madoka.Bytes.{NodeId, IPv6, bytes_eq, node_id_less, zero_id, virtual_address}
use madoka.Config.Endpoint.{InetPton, parse_endpoint}
use madoka.Join.{Digest, is_derived}

abbrev pub max_trusted_peers : ℕ
max_trusted_peers = 15

abbrev pub maximum_endpoint_size : ℕ
maximum_endpoint_size = 255

pub record TrustedPeer : Type 0 where
  pub id : NodeId
  pub public_key : List ℕ
  pub endpoint : List ℕ

pub record TrustState : Type 0 where
  pub directory : List ℕ
  pub peers : List TrustedPeer

abbrev pub peer_id : TrustedPeer → NodeId
peer_id peer = peer.id

unfoldable pub valid_endpoint : (pton6 pton4 : InetPton) → List ℕ → Bool
valid_endpoint pton6 pton4 endpoint =
    not (length endpoint == 0)
    && (leb (length endpoint) maximum_endpoint_size
        && (not (any_of (λ c. c == 0) endpoint) && elim (parse_endpoint pton6 pton4 endpoint) [
          | none ↦ false
          | some (address, port) ↦ not (port == 0)
        ]))

unfoldable pub valid_identity_binding : Digest → TrustedPeer → Bool
valid_identity_binding digest peer =
    not (bytes_eq peer.id zero_id) && is_derived digest peer.public_key peer.id

-- `std::lower_bound` by id: the peers whose id is less, which stand in front in a sorted vector, and
-- the rest.
unfoldable pub lower_bound : NodeId → List TrustedPeer → List TrustedPeer × List TrustedPeer
unfolding node_id_less
lower_bound id [] = ([], [])
lower_bound id (p ∷ ps) =
    let r = lower_bound id ps in if node_id_less p.id id then (p ∷ r.0, r.1) else ([], p ∷ ps)

unfoldable pub trust_find : TrustState → NodeId → Option TrustedPeer
unfolding lower_bound bytes_eq
trust_find state id = elim (lower_bound id state.peers).1 [
  | [] ↦ none
  | found ∷ rest ↦ if bytes_eq found.id id then some found else none
]

unfoldable pub trust_contains : TrustState → NodeId → Bool
unfolding trust_find
trust_contains state id = elim (trust_find state id) [ none ↦ false | some peer ↦ true ]

unfoldable pub trust_address_available : TrustState → IPv6 → (local_id candidate_id : NodeId) → Bool
trust_address_available state network local_id candidate_id =
    let candidate = virtual_address network candidate_id in
    if bytes_eq candidate_id zero_id || bytes_eq candidate_id local_id
    then false
    else if bytes_eq candidate (virtual_address network local_id)
        || not (any_of (λ byte. not (byte == 0)) (drop 8 candidate))
    then false
    else not (
        any_of
          (λ (peer : TrustedPeer).
            not (bytes_eq peer.id candidate_id)
            && bytes_eq (virtual_address network peer.id) candidate)
          state.peers)

-- The end of `trust_add`: the peer takes the place of the one with its id, or a place of its own.
unfoldable pub place_peer : TrustedPeer → List TrustedPeer × List TrustedPeer → List TrustedPeer
unfolding bytes_eq
place_peer peer (before, []) = before ++ peer ∷ []
place_peer peer (before, found ∷ rest) =
    if bytes_eq found.id peer.id then before ++ peer ∷ rest else before ++ peer ∷ found ∷ rest

abbrev pub is_empty : List TrustedPeer → Bool
is_empty [] = true
is_empty (p ∷ ps) = false

-- `ensured` and `written` are what `private_ensure_directory` and `private_write_atomically` return.
unfoldable pub trust_add :
    Digest
    → (pton6 pton4 : InetPton) → TrustState
    → TrustedPeer
    → (ensured written : Bool) → TrustState × Bool
unfolding lower_bound place_peer
trust_add digest pton6 pton4 state peer ensured written =
    let found = lower_bound peer.id state.peers in
    if length state.directory == 0
      || (not (valid_endpoint pton6 pton4 peer.endpoint)
          || not (valid_identity_binding digest peer))
    then (state, false)
    else if not ensured
    then (state, false)
    else if is_empty found.1 && length state.peers == max_trusted_peers
    then (state, false)
    else if not written
    then (state, false)
    else (record state { peers = place_peer peer found }, true)
