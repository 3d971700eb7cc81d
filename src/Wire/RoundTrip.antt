-- ===== src/Wire/RoundTrip.antt =====
-- Reading back what has been written.
use madoka.Common.{
  ℕ, ◌+◌, ◌%◌, ◌^◌, ◌≡◌, refl, ap, true, List, [], ◌∷◌, ◌++◌, none, arith, length, length-append,
  ltb, leb, ◌==◌, not, ltb_of_le, leb_of_le, ==_of_eq,
}
use madoka.Bytes.{IsU64}
use madoka.Bytes.Slice.{ok, Rest, Rest-start, Rest-next, slice-Rest}
use madoka.Bytes.Words.{
  write_u32_be, write_u64_be, read_u32_be-Rest, read_u64_be-Rest, byte_at-Rest,
}
use madoka.Packet.RoundTrip.{append-nil}
use madoka.Control.{ControlMessage, control_message_validate}
use madoka.Control.Gate.{validated}
use madoka.Peers.Heartbeat.{HelloMessage}
use madoka.Peers.Discovery.{NeighborAdvertisement}
use madoka.Wire.{
  serialize_control_message, deserialize_control_message, serialize_hello_message,
  deserialize_hello_message, serialize_neighbor_advertisement, deserialize_neighbor_advertisement,
  max_payload_limit,
}

hello-layout :
    (m : HelloMessage) (d : List ℕ)
    → length m.sender ≡ 32
    → IsU64 m.timestamp
    → Rest d 0 (m.sender ++ (write_u64_be m.timestamp ++ []))
    → deserialize_hello_message d ≡ ok m
unfolding deserialize_hello_message
hello-layout m d h k r0 =
    let r32 = Rest-next d 0 32 m.sender _ r0 h in
    let r40 = Rest-next d 32 8 (write_u64_be m.timestamp) _ r32 (unfold write_u64_be in refl) in
    let size : (length d == 40) ≡ true = ==_of_eq (omega (arith, r40.1)) in
    rw (size, slice-Rest d 0 32 m.sender _ r0 h, read_u64_be-Rest d 32 m.timestamp _ k r32) refl

-- A HELLO with a sender of 32 bytes and a 64-bit timestamp is read back from its bytes.
pub deserialize_hello-serialize :
    (m : HelloMessage)
    → length m.sender ≡ 32
    → IsU64 m.timestamp
    → deserialize_hello_message (serialize_hello_message m) ≡ ok m
unfolding serialize_hello_message
deserialize_hello-serialize m h k =
    hello-layout m (serialize_hello_message m) h k
      (rw (append-nil (write_u64_be m.timestamp)) (Rest-start (serialize_hello_message m)))

neighbor-layout :
    (a : NeighborAdvertisement) (d : List ℕ)
    → length a.node_id ≡ 32
    → length a.address ≡ 16
    → IsU64 a.timestamp
    → IsU64 a.sequence_number
    → Rest d 0 (
        a.node_id
        ++ (a.address ++ (write_u64_be a.timestamp ++ (write_u64_be a.sequence_number ++ []))))
    → deserialize_neighbor_advertisement d ≡ ok a
unfolding deserialize_neighbor_advertisement
neighbor-layout a d h k t s r0 =
    let r32 = Rest-next d 0 32 a.node_id _ r0 h in
    let r48 = Rest-next d 32 16 a.address _ r32 k in
    let r56 = Rest-next d 48 8 (write_u64_be a.timestamp) _ r48 (unfold write_u64_be in refl) in
    let r64 =
      Rest-next d 56 8 (write_u64_be a.sequence_number) _ r56 (unfold write_u64_be in refl) in
    let size : (length d == 64) ≡ true = ==_of_eq (omega (arith, r64.1)) in
    rw
      (
        size,
        slice-Rest d 0 32 a.node_id _ r0 h,
        slice-Rest d 32 16 a.address _ r32 k,
        read_u64_be-Rest d 48 a.timestamp _ t r48,
        read_u64_be-Rest d 56 a.sequence_number _ s r56,
      )
      refl

-- A neighbour advertisement whose fields fit their types is read back from its bytes.
pub deserialize_neighbor-serialize :
    (a : NeighborAdvertisement)
    → length a.node_id ≡ 32
    → length a.address ≡ 16
    → IsU64 a.timestamp
    → IsU64 a.sequence_number
    → deserialize_neighbor_advertisement (serialize_neighbor_advertisement a) ≡ ok a
unfolding serialize_neighbor_advertisement
deserialize_neighbor-serialize a h k t s =
    neighbor-layout a (serialize_neighbor_advertisement a) h k t s (
      rw (append-nil (write_u64_be a.sequence_number))
        (Rest-start (serialize_neighbor_advertisement a)))

control-layout :
    (m : ControlMessage) (d : List ℕ)
    → control_message_validate m ≡ none
    → IsU64 m.sequence_number
    → length m.sender ≡ 32
    → Rest d 0 (
        (m.type ∷ [])
        ++ (write_u64_be m.sequence_number
            ++ (m.sender ++ (write_u32_be (length m.payload) ++ (m.payload ++ [])))))
    → deserialize_control_message d ≡ ok m
unfolding deserialize_control_message
control-layout m d v s h r0 =
    let (known, fits) = validated m v in
    let r1 = Rest-next d 0 1 (m.type ∷ []) _ r0 refl in
    let r9 = Rest-next d 1 8 (write_u64_be m.sequence_number) _ r1 (unfold write_u64_be in refl) in
    let r41 = Rest-next d 9 32 m.sender _ r9 h in
    let r45 =
      Rest-next d 41 4 (write_u32_be (length m.payload)) _ r41 (unfold write_u32_be in refl) in
    let size : length d ≡ 45 + length m.payload =
      omega (arith, r45.1, length-append m.payload []) in
    let whole : not (ltb (length d) 45) ≡ true = ap not (ltb_of_le (omega (arith, size))) in
    let small : leb (length m.payload) max_payload_limit ≡ true = leb_of_le fits in
    let exact : (length d == 45 + length m.payload) ≡ true = ==_of_eq size in
    rw
      (
        whole,
        byte_at-Rest d 0 _ _ r0,
        known,
        read_u64_be-Rest d 1 m.sequence_number _ s r1,
        slice-Rest d 9 32 m.sender _ r9 h,
        read_u32_be-Rest d 41 (length m.payload) _ (omega (arith, fits)) r41,
        small,
        exact,
        slice-Rest d 45 (length m.payload) m.payload _ r45 refl,
      )
      refl

-- A control message that passes validation, with a 64-bit sequence number and a sender of 32 bytes,
-- is read back from its bytes.
pub deserialize_control-serialize :
    (m : ControlMessage)
    → control_message_validate m ≡ none
    → IsU64 m.sequence_number
    → length m.sender ≡ 32
    → deserialize_control_message (serialize_control_message m) ≡ ok m
unfolding serialize_control_message
deserialize_control-serialize m v s h =
    let fits : length m.payload % 2 ^ 32 ≡ length m.payload = omega (arith, (validated m v).1) in
    control-layout m (serialize_control_message m) v s h
      (rw (fits, append-nil m.payload) (Rest-start _))
