-- ===== src/Trust/Limit.antt =====
-- How many peers `trust_add` lets in.
use madoka.Common.{
  ◌+◌, ◌≡◌, refl, ap, sym, ◌∙◌, subst, Bool, true, false, List, [], ◌∷◌, ◌++◌, none, arith, length,
  ◌==◌, Bool-cases, inl, inr, find_if,
}
use madoka.Bytes.{NodeId, bytes_eq, node_id_less}
use madoka.Keyed.{find_key}
use madoka.Config.Endpoint.{InetPton}
use madoka.Join.{Digest}
use madoka.Trust.Table.{Ascending, put, put-less, put-new, trust_find-find_key}
use madoka.Trust.{
  TrustedPeer, TrustState, peer_id, lower_bound, is_empty, trust_find, place_peer, trust_add,
  valid_endpoint, valid_identity_binding,
}

-- A peer with a greater id at the end leaves `lower_bound` before the end.
lower_bound-greater :
    (id : NodeId) (front : List TrustedPeer) (last : TrustedPeer)
    → node_id_less last.id id ≡ false
    → is_empty (lower_bound id (front ++ last ∷ [])).1 ≡ false
unfolding lower_bound
lower_bound-greater id [] last h = rw h refl
lower_bound-greater id (p ∷ front) last h = ground (arith, lower_bound-greater id front last h)

length-put :
    (peer : TrustedPeer) (ps : List TrustedPeer)
    → find_key peer_id peer.id ps ≡ none
    → length (put peer ps) ≡ length ps + 1
unfolding find_key find_if
length-put peer [] h = unfold lower_bound place_peer in refl
length-put peer (p ∷ ps) h = elim (Bool-cases (bytes_eq p.id peer.id)) [
  | inl e ↦ absurd (ground (arith, h, e))
  | inr e ↦ elim (Bool-cases (node_id_less p.id peer.id)) [
    | inl l ↦
        let rest : find_key peer_id peer.id ps ≡ none = ground (arith, h, e) in
        ap length (put-less peer p ps l) ∙ omega (arith, length-put peer ps rest)
    | inr l ↦ ap length (put-new peer p ps l e) ∙ omega arith
  ]
]

trust_add-accepts :
    (digest : Digest) (pton6 pton4 : InetPton) (s : TrustState) (peer : TrustedPeer)
    → (length s.directory == 0) ≡ false
    → valid_endpoint pton6 pton4 peer.endpoint ≡ true
    → valid_identity_binding digest peer ≡ true
    → is_empty (lower_bound peer.id s.peers).1 ≡ false
    → trust_add digest pton6 pton4 s peer true true ≡ (record s { peers = put peer s.peers }, true)
unfolding trust_add
trust_add-accepts digest pton6 pton4 s peer d e b room = rw (d, e, b, room) refl

-- An accepted peer whose id is new and not above that of the last peer is added to any vector of peers
-- whose ids ascend, however long it is, where the directory is named and the files are written:
-- `trust_add` returns true, with one peer more than before. The limit of 15 peers does not hold there.
pub trust_add_past_limit :
    (digest : Digest) (pton6 pton4 : InetPton) (s : TrustState) (peer : TrustedPeer)
    (front : List TrustedPeer) (last : TrustedPeer)
    → s.peers ≡ front ++ last ∷ []
    → Ascending s.peers
    → (length s.directory == 0) ≡ false
    → valid_endpoint pton6 pton4 peer.endpoint ≡ true
    → valid_identity_binding digest peer ≡ true
    → trust_find s peer.id ≡ none
    → node_id_less last.id peer.id ≡ false
    → let r = trust_add digest pton6 pton4 s peer true true in
      (r.1 ≡ true) × (length r.0.peers ≡ length s.peers + 1)
trust_add_past_limit digest pton6 pton4 s peer front last ends h d e b new below =
    let room : is_empty (lower_bound peer.id s.peers).1 ≡ false =
      subst (λ ps. is_empty (lower_bound peer.id ps).1 ≡ false) (sym ends)
        (lower_bound-greater peer.id front last below) in
    let same = trust_add-accepts digest pton6 pton4 s peer d e b room in
    let absent = sym (trust_find-find_key s peer.id h) ∙ new in
    (
      ap (λ (r : TrustState × Bool). r.1) same,
      ap (λ (r : TrustState × Bool). length r.0.peers) same ∙ length-put peer s.peers absent,
    )
