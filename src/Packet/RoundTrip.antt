-- ===== src/Packet/RoundTrip.antt =====
-- The wire format of data packets: reading back, and what is accepted.
use madoka.Common.{
  ℕ, ◌+◌, ◌%◌, ◌^◌, ◌≤◌, ◌<◌, ◌≡◌, ◌≢◌, refl, Bool, true, false, List, [], ◌∷◌, ◌++◌, length, ltb,
  ap, arith, All, leb, ◌==◌, ◌||◌, not, ltb_of_le, leb_of_le, ==_of_eq, take, length-append,
}
use madoka.Bytes.{IsByte, IsU32, IsU64, IsArray}
use madoka.Bytes.Slice.{Result, ok, slice-Rest, Rest, Rest-start, Rest-next}
use madoka.Bytes.Words.{
  read_u32_be-Rest, read_u64_be-Rest, byte_at-Rest, write_u32_be, write_u64_be,
}
use madoka.Packet.{DataPacket, PacketType, data_packet, ack, invalid, type_byte}
use madoka.Packet.Serial.{
  serialize_packet, deserialize_packet, packet_type_of, max_data_payload_limit, bool_byte,
  PacketError,
}

-- A packet whose fields fit their types and whose payload is within the limit.
pub record IsPacket (p : DataPacket) : Type 0 where
  pub sound_type : p.type ≢ invalid
  pub source : IsArray 32 p.source
  pub destination : IsArray 32 p.destination
  pub packet_id : IsU64 p.packet_id
  pub ttl : IsByte p.ttl
  pub sequence_number : IsU32 p.sequence_number
  pub payload : (length p.payload ≤ max_data_payload_limit) × All IsByte p.payload

take-length : (xs : List ℕ) → take (length xs) xs ≡ xs
take-length [] = refl
take-length (x ∷ xs) = ap (◌∷◌ x) (take-length xs)

pub append-nil : (xs : List ℕ) → xs ++ [] ≡ xs
append-nil [] = refl
append-nil (x ∷ xs) = ap (◌∷◌ x) (append-nil xs)

-- The body of the frame, with the length of the payload as it is.
abbrev pub layout : DataPacket → List ℕ
layout p =
    (type_byte p.type ∷ [])
    ++ (p.source
        ++ (p.destination
            ++ (write_u64_be p.packet_id
                ++ ((p.ttl ∷ [])
                    ++ ((bool_byte p.requires_ack ∷ [])
                        ++ (write_u32_be p.sequence_number
                            ++ (write_u32_be (length p.payload) ++ (p.payload ++ []))))))))

pub serialize-layout : (p : DataPacket) → length p.payload < 2 ^ 32 → serialize_packet p ≡ layout p
unfolding serialize_packet
serialize-layout p h =
    let fits : length p.payload % 2 ^ 32 ≡ length p.payload = omega arith in
    rw (fits, take-length p.payload, append-nil p.payload)

known_type : (t : PacketType) → t ≢ invalid → (type_byte t == 0 || type_byte t == 1) ≡ true
unfolding type_byte
known_type data_packet h = refl
known_type ack h = refl
known_type invalid h = absurd (h refl)

type_of-type_byte : (t : PacketType) → t ≢ invalid → packet_type_of (type_byte t) ≡ t
unfolding type_byte packet_type_of
type_of-type_byte data_packet h = refl
type_of-type_byte ack h = refl
type_of-type_byte invalid h = absurd (h refl)

bool_of-bool_byte : (b : Bool) → not (bool_byte b == 0) ≡ b
bool_of-bool_byte true = refl
bool_of-bool_byte false = refl

rebuilt :
    (p : DataPacket)
    → p.type ≢ invalid
    → ◌≡◌ {A = Result PacketError DataPacket}
        (ok (record p {
          type = packet_type_of (type_byte p.type);
          requires_ack = not (bool_byte p.requires_ack == 0);
        }))
        (ok p)
rebuilt p h = rw (type_of-type_byte p.type h, bool_of-bool_byte p.requires_ack)

-- The fields, read from a buffer that is laid out as a packet.
deserialize-layout :
    (p : DataPacket) (d : List ℕ) → IsPacket p → Rest d 0 (layout p) → deserialize_packet d ≡ ok p
unfolding deserialize_packet
deserialize-layout p d v k0 =
    let k1 = Rest-next d 0 1 (type_byte p.type ∷ []) _ k0 refl in
    let k33 = Rest-next d 1 32 p.source _ k1 v.source.0 in
    let k65 = Rest-next d 33 32 p.destination _ k33 v.destination.0 in
    let k73 = Rest-next d 65 8 (write_u64_be p.packet_id) _ k65 (unfold write_u64_be in refl) in
    let k74 = Rest-next d 73 1 (p.ttl ∷ []) _ k73 refl in
    let k75 = Rest-next d 74 1 (bool_byte p.requires_ack ∷ []) _ k74 refl in
    let k79 =
      Rest-next d 75 4 (write_u32_be p.sequence_number) _ k75 (unfold write_u32_be in refl) in
    let k83 =
      Rest-next d 79 4 (write_u32_be (length p.payload)) _ k79 (unfold write_u32_be in refl) in
    let size : length d ≡ 83 + length p.payload =
      omega (arith, k83.1, length-append p.payload []) in
    let whole : not (ltb (length d) 83) ≡ true = ap not (ltb_of_le (omega (arith, size))) in
    let known : (type_byte p.type == 0 || type_byte p.type == 1) ≡ true =
      known_type p.type v.sound_type in
    let small : leb (length p.payload) max_data_payload_limit ≡ true = leb_of_le v.payload.0 in
    let exact : (length d == 83 + length p.payload) ≡ true = ==_of_eq size in
    rw
      (
        whole,
        byte_at-Rest d 0 _ _ k0,
        known,
        read_u32_be-Rest d 79 (length p.payload) _ (omega (arith, v.payload.0)) k79,
        small,
        exact,
        slice-Rest d 1 32 p.source _ k1 v.source.0,
        slice-Rest d 33 32 p.destination _ k33 v.destination.0,
        read_u64_be-Rest d 65 p.packet_id _ v.packet_id k65,
        byte_at-Rest d 73 _ _ k73,
        byte_at-Rest d 74 _ _ k74,
        read_u32_be-Rest d 75 p.sequence_number _ v.sequence_number k75,
        slice-Rest d 83 (length p.payload) p.payload _ k83 refl,
      )
      (rebuilt p v.sound_type)

-- A packet of type DATA or ACK whose fields fit their types and whose payload has at most 65536
-- bytes is read back from the bytes that it is written to.
pub deserialize-serialize :
    (p : DataPacket) → IsPacket p → deserialize_packet (serialize_packet p) ≡ ok p
deserialize-serialize p v =
    rw (serialize-layout p (omega (arith, v.payload.0)))
      (deserialize-layout p (layout p) v (Rest-start (layout p)))
