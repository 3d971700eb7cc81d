-- ===== src/Wire/Join/RoundTrip.antt =====
-- The messages of the join protocol are read back from their bytes.
use madoka.Common.{
  ℕ, ◌+◌, ◌-◌, ◌%◌, ◌^◌, ◌≤◌, ◌≡◌, refl, ap, ◌∙◌, subst, Bool, true, false, List, [], ◌∷◌, ◌++◌,
  arith, length, length-append, ltb, ◌==◌, ltb_of_le, ==_of_eq, All,
}
use madoka.Bytes.{IsU64}
use madoka.Bytes.Slice.{ok, Rest, Rest-start, Rest-next, slice-Rest, subspan-Rest}
use madoka.Bytes.Words.{
  write_u16_be, write_u64_be, read_u16_be-Rest, read_u64_be-Rest, byte_at-Rest,
}
use madoka.Packet.Serial.{bool_byte}
use madoka.Packet.RoundTrip.{append-nil}
use madoka.Kademlia.{NodeContact, kademlia_k}
use madoka.Join.Message.{
  JoinRequest, JoinResponse, FindNodeMessage, NeighborsMessage, NodeAnnounceMessage,
  NodeAnnounceAck,
}
use madoka.Wire.Contact.{
  serialize_node_contact, deserialize_node_contact, append_contacts, truncated_neighbors,
  truncated_join_peers,
}
use madoka.Wire.Contact.RoundTrip.{
  FitsWire, append_assoc, length-serialize_contact, deserialize_contact-serialize, contacts_bytes,
  append_contacts-bytes, read_contacts-Rest,
}
use madoka.Wire.Join.{
  serialize_join_request, deserialize_join_request, boot_contact, serialize_join_response,
  deserialize_join_response, serialize_find_node, deserialize_find_node, serialize_neighbors,
  deserialize_neighbors, serialize_node_announce, deserialize_node_announce,
  serialize_node_announce_ack, deserialize_node_announce_ack,
}

-- The sizes of the fields of a join request that fits its format.
pub record FitsRequest (r : JoinRequest) : Type 0 where
  pub node_id : length r.node_id ≡ 32
  pub public_key : length r.public_key ≡ 32
  pub virtual_address : length r.virtual_address ≡ 16
  pub endpoint : length r.endpoint ≤ 255
  pub timestamp : IsU64 r.timestamp
  pub nonce : IsU64 r.nonce
  pub invite_token : length r.invite_token ≤ 512

request-layout :
    (r : JoinRequest) (d : List ℕ)
    → FitsRequest r
    → Rest d 0 (
        r.node_id
        ++ (r.public_key
            ++ (r.virtual_address
                ++ (write_u16_be (length r.endpoint)
                    ++ (r.endpoint
                        ++ (write_u64_be r.timestamp
                            ++ (write_u64_be r.nonce
                                ++ (write_u16_be (length r.invite_token)
                                    ++ (r.invite_token ++ [])))))))))
    → deserialize_join_request d ≡ ok r
unfolding deserialize_join_request
request-layout r d f r0 =
    let n = length r.endpoint in
    let t = length r.invite_token in
    let r32 = Rest-next d 0 32 r.node_id _ r0 f.node_id in
    let r64 = Rest-next d 32 32 r.public_key _ r32 f.public_key in
    let r80 = Rest-next d 64 16 r.virtual_address _ r64 f.virtual_address in
    let r82 = Rest-next d 80 2 (write_u16_be n) _ r80 (unfold write_u16_be in refl) in
    let re = Rest-next d 82 n r.endpoint _ r82 refl in
    let r8 = Rest-next d (82 + n) 8 (write_u64_be r.timestamp) _ re (unfold write_u64_be in refl) in
    let r16 =
      Rest-next d (82 + n + 8) 8 (write_u64_be r.nonce) _ r8 (unfold write_u64_be in refl) in
    let r18 = Rest-next d (82 + n + 8 + 8) 2 (write_u16_be t) _ r16 (unfold write_u16_be in refl) in
    let size : length d ≡ 100 + n + t = omega (arith, r18.1, length-append r.invite_token []) in
    let whole : ltb (length d) 100 ≡ false = ltb_of_le (omega (arith, size)) in
    let small : ltb 255 n ≡ false = ltb_of_le f.endpoint in
    let fits : ltb (length d) (100 + n) ≡ false = ltb_of_le (omega (arith, size)) in
    let short : ltb 512 t ≡ false = ltb_of_le f.invite_token in
    let exact : (length d == 100 + n + t) ≡ true = ==_of_eq size in
    rw
      (
        whole,
        read_u16_be-Rest d 80 n _ (omega (arith, f.endpoint)) r80,
        small,
        fits,
        read_u16_be-Rest d (82 + n + 8 + 8) t _ (omega (arith, f.invite_token)) r16,
        short,
        exact,
        slice-Rest d 0 32 r.node_id _ r0 f.node_id,
        slice-Rest d 32 32 r.public_key _ r32 f.public_key,
        slice-Rest d 64 16 r.virtual_address _ r64 f.virtual_address,
        slice-Rest d 82 n r.endpoint _ r82 refl,
        read_u64_be-Rest d (82 + n) r.timestamp _ f.timestamp re,
        read_u64_be-Rest d (82 + n + 8) r.nonce _ f.nonce r8,
        slice-Rest d (82 + n + 8 + 8 + 2) t r.invite_token _ r18 refl,
      )
      refl

-- A join request whose fields fit the format is read back from its bytes.
pub deserialize_request-serialize :
    (r : JoinRequest) → FitsRequest r → deserialize_join_request (serialize_join_request r) ≡ ok r
unfolding serialize_join_request
deserialize_request-serialize r f =
    let small : ltb 255 (length r.endpoint) ≡ false = ltb_of_le f.endpoint in
    let short : ltb 512 (length r.invite_token) ≡ false = ltb_of_le f.invite_token in
    let word : length r.endpoint % 2 ^ 16 ≡ length r.endpoint = omega (arith, f.endpoint) in
    let word_token : length r.invite_token % 2 ^ 16 ≡ length r.invite_token =
      omega (arith, f.invite_token) in
    request-layout r (serialize_join_request r) f
      (rw (small, short, word, word_token, append-nil r.invite_token) (Rest-start _))

-- A FIND_NODE message with a target of 32 bytes is read back from its bytes.
pub deserialize_find_node-serialize :
    (m : FindNodeMessage)
    → length m.target ≡ 32
    → deserialize_find_node (serialize_find_node m) ≡ ok m
unfolding deserialize_find_node serialize_find_node
deserialize_find_node-serialize m h =
    let r0 : Rest m.target 0 (m.target ++ []) = rw (append-nil m.target) (Rest-start m.target) in
    let exact : (length m.target == 32) ≡ true = ==_of_eq h in
    rw (exact, slice-Rest m.target 0 32 m.target [] r0 h) refl

-- An answer to an announcement, with a responder of 32 bytes, is read back from its bytes.
pub deserialize_ack-serialize :
    (m : NodeAnnounceAck)
    → length m.responder ≡ 32
    → deserialize_node_announce_ack (serialize_node_announce_ack m) ≡ ok m
unfolding deserialize_node_announce_ack serialize_node_announce_ack
deserialize_ack-serialize m h =
    let d = bool_byte m.accepted ∷ m.responder in
    let r0 = Rest-start d in
    let r1 : Rest d 1 (m.responder ++ []) =
      rw (append-nil m.responder)
        (Rest-next d 0 1 (bool_byte m.accepted ∷ []) m.responder r0 refl) in
    let exact : (length d == 33) ≡ true = ==_of_eq (omega (arith, h)) in
    rw (exact, byte_at-Rest d 0 _ _ r0, slice-Rest d 1 32 m.responder [] r1 h) (ground arith)

announce-layout :
    (m : NodeAnnounceMessage) (c d : List ℕ)
    → IsU64 m.nonce
    → deserialize_node_contact c ≡ ok (m.contact, length c)
    → Rest d 0 (c ++ (write_u64_be m.nonce ++ []))
    → deserialize_node_announce d ≡ ok m
unfolding deserialize_node_announce
announce-layout m c d k contact r0 =
    let r1 : Rest d (length c) (write_u64_be m.nonce ++ []) =
      subst (λ n. Rest d n (write_u64_be m.nonce ++ [])) (omega arith)
        (Rest-next d 0 (length c) c _ r0 refl) in
    let word : length (write_u64_be m.nonce ++ []) ≡ 8 = unfold write_u64_be in refl in
    let size : length d ≡ length c + 8 = omega (arith, r1.1, word) in
    let whole : length d - 8 ≡ length c = omega (arith, size) in
    let long : ltb (length d) 8 ≡ false = ltb_of_le (omega (arith, size)) in
    let same : (length c == length c) ≡ true = ==_of_eq refl in
    rw
      (
        long,
        whole,
        slice-Rest d 0 (length c) c _ r0 refl,
        contact,
        same,
        read_u64_be-Rest d (length c) m.nonce _ k r1,
      )
      refl

-- An announcement whose contact fits the format, with a 64-bit nonce, is read back from its bytes.
pub deserialize_announce-serialize :
    (m : NodeAnnounceMessage)
    → FitsWire m.contact
    → IsU64 m.nonce
    → deserialize_node_announce (serialize_node_announce m) ≡ ok m
unfolding serialize_node_announce
deserialize_announce-serialize m f k =
    let c = serialize_node_contact m.contact in
    announce-layout m c (serialize_node_announce m) k
      (subst (λ d. deserialize_node_contact d ≡ ok (m.contact, length c)) (append-nil c)
        (deserialize_contact-serialize m.contact [] f))
      (rw (append-nil (write_u64_be m.nonce)) (Rest-start _))

-- A list of at most 20 contacts that fit their format is read back from its bytes.
pub deserialize_neighbors-serialize :
    (m : NeighborsMessage)
    → length m.peers ≤ kademlia_k
    → All FitsWire m.peers
    → deserialize_neighbors (serialize_neighbors m) ≡ ok m
unfolding deserialize_neighbors serialize_neighbors
deserialize_neighbors-serialize m small f =
    let n = length m.peers in
    let bytes = contacts_bytes m.peers in
    let d = write_u16_be n ++ bytes in
    let word : n % 2 ^ 16 ≡ n = omega (arith, small) in
    let few : ltb 20 n ≡ false = ltb_of_le small in
    let two : length (write_u16_be n) ≡ 2 = unfold write_u16_be in refl in
    let size = length-append (write_u16_be n) bytes in
    let r2 : Rest d 2 (bytes ++ []) =
      rw (append-nil bytes) (Rest-next d 0 2 (write_u16_be n) bytes (Rest-start d) two) in
    let header : ltb (length d) 2 ≡ false = ltb_of_le (omega (arith, two, size)) in
    let exact : (2 + length bytes == length d) ≡ true = ==_of_eq (omega (arith, two, size)) in
    rw
      (
        few,
        word,
        append_contacts-bytes (write_u16_be n) m.peers f,
        header,
        read_u16_be-Rest d 0 n _ (omega (arith, small)) (Rest-start d),
        few,
        read_contacts-Rest truncated_neighbors m.peers d [] 2 f r2,
        exact,
      )
      refl

-- What a reader makes of a response: the bootstrap contact under the bootstrap id where its own is
-- zero, and its id as the bootstrap id.
abbrev pub announced : JoinResponse → JoinResponse
announced r = record r { bootstrap_contact = boot_contact r; bootstrap_id = (boot_contact r).id }

response-layout :
    (accepted : Bool) (boot : NodeContact) (peers : List NodeContact) (d : List ℕ)
    → length peers ≤ kademlia_k
    → FitsWire boot
    → All FitsWire peers
    → Rest d 0 (
        (bool_byte accepted ∷ [])
        ++ (serialize_node_contact boot
            ++ (write_u16_be (length peers) ++ (contacts_bytes peers ++ []))))
    → deserialize_join_response d
      ≡ ok (record {
        accepted = accepted;
        bootstrap_contact = boot;
        bootstrap_id = boot.id;
        peers = peers;
      })
unfolding deserialize_join_response
response-layout accepted boot peers d small fb fp r0 =
    let n = length peers in
    let bytes = serialize_node_contact boot in
    let tail = write_u16_be n ++ (contacts_bytes peers ++ []) in
    let r1 = Rest-next d 0 1 (bool_byte accepted ∷ []) _ r0 refl in
    let rb = Rest-next d 1 (length bytes) bytes _ r1 refl in
    let rc = Rest-next d (1 + length bytes) 2 (write_u16_be n) _ rb (unfold write_u16_be in refl) in
    let filled : (length d == 0) ≡ false = ground (arith, r1.1) in
    let header : ltb (length d) (1 + length bytes + 2) ≡ false = ltb_of_le (omega (arith, rc.1)) in
    let few : ltb 20 n ≡ false = ltb_of_le small in
    let exact : (1 + length bytes + 2 + length (contacts_bytes peers) == length d) ≡ true =
      ==_of_eq (omega (arith, rc.1, length-append (contacts_bytes peers) [])) in
    rw
      (
        filled,
        byte_at-Rest d 0 _ _ r0,
        subspan-Rest d 1 _ r1,
        deserialize_contact-serialize boot tail fb,
        header,
        read_u16_be-Rest d (1 + length bytes) n _ (omega (arith, small)) rb,
        few,
        read_contacts-Rest truncated_join_peers peers d [] (1 + length bytes + 2) fp rc,
        exact,
      )
      (ground arith)

response_bytes :
    (accepted : ℕ) (bytes word : List ℕ) (peers : List NodeContact)
    → 1 ≤ length bytes
    → All FitsWire peers
    → (elim bytes [ [] ↦ [] | b ∷ bs ↦ append_contacts (accepted ∷ (b ∷ bs) ++ word) peers ])
      ≡ accepted ∷ (bytes ++ (word ++ (contacts_bytes peers ++ [])))
response_bytes accepted [] word peers h f = absurd (omega arith)
response_bytes accepted (b ∷ bs) word peers h f = rw (append-nil (contacts_bytes peers)) (
    append_contacts-bytes (accepted ∷ (b ∷ bs) ++ word) peers f
    ∙ ap (λ bytes. accepted ∷ b ∷ bytes) (append_assoc bs word (contacts_bytes peers)))

-- A response with at most 20 peers, which fit their format as the bootstrap contact does, is read
-- back from its bytes as `announced`: the bootstrap contact has the bootstrap id where its own was
-- zero, and its id is the bootstrap id.
pub deserialize_response-serialize :
    (r : JoinResponse)
    → length r.peers ≤ kademlia_k
    → FitsWire (boot_contact r)
    → All FitsWire r.peers
    → deserialize_join_response (serialize_join_response r) ≡ ok (announced r)
unfolding serialize_join_response
deserialize_response-serialize r small fb fp =
    let bytes = serialize_node_contact (boot_contact r) in
    let word : length r.peers % 2 ^ 16 ≡ length r.peers = omega (arith, small) in
    let few : ltb 20 (length r.peers) ≡ false = ltb_of_le small in
    response-layout r.accepted (boot_contact r) r.peers (serialize_join_response r) small fb fp (
      rw
        (
          few,
          response_bytes (bool_byte r.accepted) bytes (write_u16_be (length r.peers % 2 ^ 16))
              r.peers (omega (arith, length-serialize_contact (boot_contact r) fb)) fp,
          word,
        )
        (Rest-start _))
