-- ===== src/Wire.antt =====
-- src/network/serialization.cpp: the wire formats of control messages, HELLOs and neighbour
-- advertisements. A null output pointer, with which a reader only checks, is not modelled.
pub mod RoundTrip
pub mod Advertisement
pub mod Learned
pub mod Contact
pub mod Join
mod Tests
use madoka.Common.{
  ℕ, ◌+◌, ◌%◌, ◌^◌, Bool, true, false, List, [], ◌∷◌, ◌++◌, length, ltb, leb, ◌==◌, not,
}
use madoka.Bytes.{zero_id}
use madoka.Bytes.Slice.{Result, ok, err, fault, ◌>>=◌, ◌>>◌, check, byte_at, slice}
use madoka.Bytes.Words.{write_u32_be, write_u64_be, read_u32_be, read_u64_be}
use madoka.Control.{ControlMessage, is_known_type}
use madoka.Peers.Heartbeat.{HelloMessage}
use madoka.Peers.Discovery.{NeighborAdvertisement}

abbrev pub control_message_header_size : ℕ
control_message_header_size = 45

abbrev pub hello_message_wire_size : ℕ
hello_message_wire_size = 40

abbrev pub neighbor_adv_wire_size : ℕ
neighbor_adv_wire_size = 64

abbrev pub max_payload_limit : ℕ
max_payload_limit = 65536

-- The messages written to `*error`.
pub data WireError : Type 0 where
  short_control_header payload_over_limit control_size_mismatch : WireError
  bad_message_type : ℕ → WireError
  bad_hello_size bad_neighbor_adv_size : WireError

unfoldable pub serialize_control_message : ControlMessage → List ℕ
unfolding write_u64_be write_u32_be
serialize_control_message m =
    (m.type ∷ [])
    ++ (write_u64_be m.sequence_number
        ++ (m.sender ++ (write_u32_be (length m.payload % 2 ^ 32) ++ m.payload)))

unfoldable pub deserialize_control_message : List ℕ → Result WireError ControlMessage
deserialize_control_message d = do
  check (not (ltb (length d) control_message_header_size)) short_control_header
  type_raw ← byte_at d 0
  check (is_known_type type_raw) (bad_message_type type_raw)
  sequence_number ← read_u64_be d 1
  sender ← slice d 9 32
  payload_len ← read_u32_be d 41
  check (leb payload_len max_payload_limit) payload_over_limit
  check (length d == control_message_header_size + payload_len) control_size_mismatch
  payload ← slice d 45 payload_len
  ok (record {
    type = type_raw;
    sequence_number = sequence_number;
    sender = sender;
    payload = payload;
  })

unfoldable pub serialize_hello_message : HelloMessage → List ℕ
unfolding write_u64_be
serialize_hello_message m = m.sender ++ write_u64_be m.timestamp

unfoldable pub deserialize_hello_message : List ℕ → Result WireError HelloMessage
deserialize_hello_message d = do
  check (length d == hello_message_wire_size) bad_hello_size
  sender ← slice d 0 32
  timestamp ← read_u64_be d 32
  ok (record { sender = sender; timestamp = timestamp })

unfoldable pub serialize_neighbor_advertisement : NeighborAdvertisement → List ℕ
unfolding write_u64_be
serialize_neighbor_advertisement adv =
    adv.node_id ++ (adv.address ++ (write_u64_be adv.timestamp ++ write_u64_be adv.sequence_number))

unfoldable pub deserialize_neighbor_advertisement : List ℕ → Result WireError NeighborAdvertisement
deserialize_neighbor_advertisement d = do
  check (length d == neighbor_adv_wire_size) bad_neighbor_adv_size
  node_id ← slice d 0 32
  address ← slice d 32 16
  timestamp ← read_u64_be d 48
  sequence_number ← read_u64_be d 56
  ok (record {
    node_id = node_id;
    address = address;
    timestamp = timestamp;
    sequence_number = sequence_number;
  })
