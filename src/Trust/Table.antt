-- ===== src/Trust/Table.antt =====
-- The sorted vector of trusted peers as a map from ids to peers.
use madoka.Common.{
  ◌≡◌, refl, ap, sym, ◌∙◌, subst, Bool, true, false, List, [], ◌∷◌, Option, none, some, arith,
  if◌then◌else◌, All, All-mono, Bool-cases, inl, inr, find_if,
}
use madoka.Bytes.{NodeId, bytes_eq, bytes_eq_iff, node_id_less}
use madoka.Keyed.{find_key}
use madoka.Config.Endpoint.{InetPton}
use madoka.Join.{Digest}
use madoka.Trust.Order.{less_trans, less_total, less-ne}
use madoka.Trust.{
  TrustedPeer, TrustState, peer_id, lower_bound, trust_find, place_peer, trust_add, valid_endpoint,
  valid_identity_binding,
}

-- Ids that ascend.
abbrev pub Ascending : List TrustedPeer → Type 0
Ascending [] = Unit
Ascending (p ∷ ps) = All (λ q. node_id_less p.id q.id ≡ true) ps × Ascending ps

-- An id below all the others is not found among them.
none_below :
    (id : NodeId) (ps : List TrustedPeer)
    → All (λ q. node_id_less id q.id ≡ true) ps
    → find_key peer_id id ps ≡ none
unfolding find_key find_if
none_below id [] h = refl
none_below id (p ∷ ps) h =
    ground (
      arith,
      none_below id ps h.1,
      h.0,
      less-ne id p.id,
      bytes_eq_iff p.id id,
      bytes_eq_iff id p.id,
    )

below_all :
    (id : NodeId) (p : TrustedPeer) (ps : List TrustedPeer)
    → node_id_less id p.id ≡ true
    → All (λ q. node_id_less p.id q.id ≡ true) ps
    → All (λ q. node_id_less id q.id ≡ true) ps
below_all id p ps h k =
    All-mono (λ q. node_id_less p.id q.id ≡ true) (λ q. node_id_less id q.id ≡ true)
      (λ q l. less_trans id p.id q.id h l) ps k

less_flip :
    (a b : NodeId) → node_id_less a b ≡ false → bytes_eq a b ≡ false → node_id_less b a ≡ true
less_flip a b h k = elim (Bool-cases (node_id_less b a)) [
  | inl l ↦ l
  | inr l ↦ absurd (ground (arith, k, less_total a b h l))
]

-- What `trust_find` does with the vector.
abbrev found_at : NodeId → List TrustedPeer → Option TrustedPeer
found_at id [] = none
found_at id (found ∷ rest) = if bytes_eq found.id id then some found else none

lower_bound-find :
    (id : NodeId) (ps : List TrustedPeer)
    → Ascending ps
    → found_at id (lower_bound id ps).1 ≡ find_key peer_id id ps
unfolding lower_bound find_key find_if
lower_bound-find id [] h = refl
lower_bound-find id (p ∷ ps) h = elim (Bool-cases (node_id_less p.id id)) [
  | inl l ↦ let other = less-ne p.id id l in rw (l, other) (lower_bound-find id ps h.1)
  | inr l ↦ elim (Bool-cases (bytes_eq p.id id)) [
    | inl e ↦ rw (l, e) refl
    | inr e ↦
        let above = less_flip p.id id l e in
        rw (l, e, none_below id ps (below_all id p ps above h.0)) refl
  ]
]

-- The binary search of a vector that ascends finds the peer of an id, as a search from the front does.
pub trust_find-find_key :
    (s : TrustState) (id : NodeId)
    → Ascending s.peers
    → trust_find s id ≡ find_key peer_id id s.peers
unfolding trust_find
trust_find-find_key s id h = ground (arith, lower_bound-find id s.peers h)

-- A peer in its place, from the front.
abbrev pub put : TrustedPeer → List TrustedPeer → List TrustedPeer
put peer ps = place_peer peer (lower_bound peer.id ps)

place_peer-front :
    (peer p : TrustedPeer) (r : List TrustedPeer × List TrustedPeer)
    → place_peer peer (p ∷ r.0, r.1) ≡ p ∷ place_peer peer r
unfolding place_peer
place_peer-front peer p (before, []) = refl
place_peer-front peer p (before, found ∷ rest) = ground arith

pub put-less :
    (peer p : TrustedPeer) (ps : List TrustedPeer)
    → node_id_less p.id peer.id ≡ true
    → put peer (p ∷ ps) ≡ p ∷ put peer ps
unfolding lower_bound
put-less peer p ps l = rw l (place_peer-front peer p (lower_bound peer.id ps))

pub put-same :
    (peer p : TrustedPeer) (ps : List TrustedPeer)
    → node_id_less p.id peer.id ≡ false
    → bytes_eq p.id peer.id ≡ true
    → put peer (p ∷ ps) ≡ peer ∷ ps
unfolding lower_bound place_peer
put-same peer p ps l e = rw (l, e) refl

pub put-new :
    (peer p : TrustedPeer) (ps : List TrustedPeer)
    → node_id_less p.id peer.id ≡ false
    → bytes_eq p.id peer.id ≡ false
    → put peer (p ∷ ps) ≡ peer ∷ p ∷ ps
unfolding lower_bound place_peer
put-new peer p ps l e = rw (l, e) refl

module _ (P : TrustedPeer → Type 0) where
  put-All : (peer : TrustedPeer) (ps : List TrustedPeer) → P peer → All P ps → All P (put peer ps)
  put-All peer [] h k = unfold lower_bound place_peer in (h, tt)
  put-All peer (p ∷ ps) h k = elim (Bool-cases (node_id_less p.id peer.id)) [
    | inl l ↦ subst (All P) (sym (put-less peer p ps l)) (k.0, put-All peer ps h k.1)
    | inr l ↦ elim (Bool-cases (bytes_eq p.id peer.id)) [
      | inl e ↦ subst (All P) (sym (put-same peer p ps l e)) (h, k.1)
      | inr e ↦ subst (All P) (sym (put-new peer p ps l e)) (h, k)
    ]
  ]

put-Ascending :
    (peer : TrustedPeer) (ps : List TrustedPeer) → Ascending ps → Ascending (put peer ps)
put-Ascending peer [] h = unfold lower_bound place_peer in (tt, tt)
put-Ascending peer (p ∷ ps) h = elim (Bool-cases (node_id_less p.id peer.id)) [
  | inl l ↦
      subst Ascending (sym (put-less peer p ps l))
        (put-All (λ q. node_id_less p.id q.id ≡ true) peer ps l h.0, put-Ascending peer ps h.1)
  | inr l ↦ elim (Bool-cases (bytes_eq p.id peer.id)) [
    | inl e ↦
        let same = (bytes_eq_iff p.id peer.id).0 e in
        subst Ascending (sym (put-same peer p ps l e))
          (subst (λ id. All (λ q. node_id_less id q.id ≡ true) ps) same h.0, h.1)
    | inr e ↦
        let above = less_flip p.id peer.id l e in
        subst Ascending (sym (put-new peer p ps l e)) ((above, below_all peer.id p ps above h.0), h)
  ]
]

-- The peer is found under its id, and whatever else is looked up as before.
find_key-put :
    (peer : TrustedPeer) (ps : List TrustedPeer) (k : NodeId)
    → Ascending ps
    → find_key peer_id k (put peer ps)
      ≡ (if bytes_eq peer.id k then some peer else find_key peer_id k ps)
unfolding find_key find_if
find_key-put peer [] k h = unfold lower_bound place_peer in refl
find_key-put peer (p ∷ ps) k h = elim (Bool-cases (node_id_less p.id peer.id)) [
  | inl l ↦
      ap (find_key peer_id k) (put-less peer p ps l)
      ∙ ground (
        arith,
        find_key-put peer ps k h.1,
        less-ne p.id peer.id l,
        bytes_eq_iff p.id k,
        bytes_eq_iff p.id peer.id,
        bytes_eq_iff peer.id k,
      )
  | inr l ↦ elim (Bool-cases (bytes_eq p.id peer.id)) [
    | inl e ↦
        ap (find_key peer_id k) (put-same peer p ps l e)
        ∙ ground (arith, e, bytes_eq_iff p.id peer.id, bytes_eq_iff p.id k, bytes_eq_iff peer.id k)
    | inr e ↦ ap (find_key peer_id k) (put-new peer p ps l e) ∙ refl
  ]
]

trust_add-put :
    (digest : Digest) (pton6 pton4 : InetPton) (s : TrustState) (peer : TrustedPeer)
    (ensured written : Bool)
    → (trust_add digest pton6 pton4 s peer ensured written).1 ≡ true
    → (valid_endpoint pton6 pton4 peer.endpoint ≡ true)
      × (valid_identity_binding digest peer ≡ true)
      × ((trust_add digest pton6 pton4 s peer ensured written).0
          ≡ record s { peers = put peer s.peers })
unfolding trust_add
trust_add-put digest pton6 pton4 s peer ensured written h = ground (arith, h)

-- When `trust_add` returns true on a vector of peers whose ids ascend, the peer has an endpoint that is
-- accepted and an id that is the digest of its public key and not zero; the ids ascend afterwards, the
-- peer is found under its id, in the place of the one that was there, and every other id is found as before.
pub trust_add-find :
    (digest : Digest) (pton6 pton4 : InetPton) (s : TrustState) (peer : TrustedPeer)
    (ensured written : Bool)
    → Ascending s.peers
    → (trust_add digest pton6 pton4 s peer ensured written).1 ≡ true
    → let s' = (trust_add digest pton6 pton4 s peer ensured written).0 in
      (valid_endpoint pton6 pton4 peer.endpoint ≡ true)
      × (valid_identity_binding digest peer ≡ true)
      × Ascending s'.peers
      × ((k : NodeId)
          → trust_find s' k ≡ (if bytes_eq peer.id k then some peer else trust_find s k))
trust_add-find digest pton6 pton4 s peer ensured written h e =
    let (endpoint, bound, same) = trust_add-put digest pton6 pton4 s peer ensured written e in
    let after : TrustState = record s { peers = put peer s.peers } in
    let sorted = put-Ascending peer s.peers h in
    (
      endpoint,
      bound,
      subst (λ (t : TrustState). Ascending t.peers) (sym same) sorted,
      λ k.
          ap (λ t. trust_find t k) same
          ∙ trust_find-find_key after k sorted
          ∙ find_key-put peer s.peers k h
          ∙ ap (λ o. if bytes_eq peer.id k then some peer else o) (sym (trust_find-find_key s k h)),
    )
