-- ===== src/Packet/Serial.antt =====
-- src/network/data_serialization.cpp: the wire format of data packets. A null `out_packet`, which the
-- source refuses first, is not modelled: the result takes its place.
use madoka.Common.{
  ℕ, ◌+◌, ◌%◌, ◌^◌, Bool, true, false, ◌||◌, List, [], ◌∷◌, ◌++◌, length, take, ltb, leb, ◌==◌,
  if◌then◌else◌, not,
}
use madoka.Bytes.{zero_id}
use madoka.Bytes.Slice.{Result, ok, err, fault, ◌>>=◌, ◌>>◌, check, byte_at, slice}
use madoka.Bytes.Words.{write_u32_be, write_u64_be, read_u32_be, read_u64_be}
use madoka.Packet.{DataPacket, PacketType, data_packet, ack, invalid, type_byte}

abbrev pub data_packet_header_size : ℕ
data_packet_header_size = 83

abbrev pub max_data_payload_limit : ℕ
max_data_payload_limit = 65536

abbrev pub bool_byte : Bool → ℕ
bool_byte true = 1
bool_byte false = 0

-- `payload_len` is the size as a `uint32_t`, and that many bytes are copied.
unfoldable pub serialize_packet : DataPacket → List ℕ
unfolding type_byte write_u64_be write_u32_be
serialize_packet p =
    let payload_len = length p.payload % 2 ^ 32 in
    (type_byte p.type ∷ [])
    ++ (p.source
        ++ (p.destination
            ++ (write_u64_be p.packet_id
                ++ ((p.ttl ∷ [])
                    ++ ((bool_byte p.requires_ack ∷ [])
                        ++ (write_u32_be p.sequence_number
                            ++ (write_u32_be payload_len ++ take payload_len p.payload)))))))

pub data PacketError : Type 0 where
  buffer_too_small unrecognized_type payload_too_large truncated_payload trailing_bytes :
      PacketError

-- `static_cast<PacketType>(type_raw)`, behind the check of the byte.
unfoldable pub packet_type_of : ℕ → PacketType
packet_type_of b = if b == 0 then data_packet else ack

unfoldable pub deserialize_packet : List ℕ → Result PacketError DataPacket
unfolding packet_type_of
deserialize_packet d = do
  check (not (ltb (length d) data_packet_header_size)) buffer_too_small
  type_raw ← byte_at d 0
  check (type_raw == 0 || type_raw == 1) unrecognized_type
  payload_len ← read_u32_be d 79
  check (leb payload_len max_data_payload_limit) payload_too_large
  check (length d == data_packet_header_size + payload_len) (
      if ltb (length d) (data_packet_header_size + payload_len)
      then truncated_payload
      else trailing_bytes)
  source ← slice d 1 32
  destination ← slice d 33 32
  packet_id ← read_u64_be d 65
  ttl ← byte_at d 73
  ack_raw ← byte_at d 74
  sequence_number ← read_u32_be d 75
  payload ← slice d 83 payload_len
  ok (record {
    type = packet_type_of type_raw;
    source = source;
    destination = destination;
    packet_id = packet_id;
    ttl = ttl;
    requires_ack = not (ack_raw == 0);
    sequence_number = sequence_number;
    payload = payload;
  })

-- `DataPacket{}` with the type Invalid.
abbrev invalid_packet : DataPacket
invalid_packet = record {
  type = invalid;
  source = zero_id;
  destination = zero_id;
  packet_id = 0;
  ttl = 64;
  requires_ack = false;
  sequence_number = 0;
  payload = [];
}

-- The overload that returns a packet. A fault, which does not occur, is given the same answer.
unfoldable pub packet_or_invalid : Result PacketError DataPacket → DataPacket
packet_or_invalid (ok p) = p
packet_or_invalid (err e) = invalid_packet
packet_or_invalid fault = invalid_packet
