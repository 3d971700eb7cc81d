-- ===== src/Packet/Tests.antt =====
-- A concrete data packet, and the theorems on it.
use madoka.Common.{◌≡◌, refl, true, false, [], ◌∷◌, arith, All, replicate}
use madoka.Bytes.{IsByte, zero_id, bytes_eq}
use madoka.Bytes.Slice.{ok, byte_at}
use madoka.Bytes.Words.{write_u32_be, write_u64_be}
use madoka.Packet.{
  DataPacket, data_packet, ack, is_valid, data_packet_create, data_packet_create_full,
  data_packet_equal, to_string, type_byte,
}
use madoka.Packet.Serial.{serialize_packet, deserialize_packet, packet_or_invalid, PacketError}
use madoka.Packet.RoundTrip.{IsPacket, deserialize-serialize}
use madoka.Packet.Accept.{serialize-deserialize}

abbrev small_packet : DataPacket
small_packet = record {
  type = ack;
  source = zero_id;
  destination = 9 ∷ replicate 31 0;
  packet_id = 258;
  ttl = 64;
  requires_ack = true;
  sequence_number = 7;
  payload = 5 ∷ 6 ∷ [];
}

small_packet-IsPacket : IsPacket small_packet
small_packet-IsPacket = record {
  sound_type = λ e. cc;
  source = (refl, ground arith);
  destination = (refl, ground arith);
  packet_id = omega arith;
  ttl = omega arith;
  sequence_number = omega arith;
  payload = (omega arith, ground arith);
}

deserialize-serialize_example : deserialize_packet (serialize_packet small_packet) ≡ ok small_packet
deserialize-serialize_example = deserialize-serialize small_packet small_packet-IsPacket

bytes_of_small : All IsByte (serialize_packet small_packet)
unfolding serialize_packet type_byte write_u64_be write_u32_be
bytes_of_small = ground arith

flag_of_small : byte_at {E = PacketError} (serialize_packet small_packet) 74 ≡ ok 1
unfolding serialize_packet type_byte write_u64_be write_u32_be byte_at
flag_of_small = refl

serialize-deserialize_example : serialize_packet small_packet ≡ serialize_packet small_packet
serialize-deserialize_example =
    serialize-deserialize (serialize_packet small_packet) small_packet bytes_of_small
      deserialize-serialize_example flag_of_small

-- Small runs.
invalid_by_default : is_valid (packet_or_invalid (deserialize_packet (0 ∷ []))) ≡ false
unfolding is_valid packet_or_invalid deserialize_packet
invalid_by_default = refl

create_run :
    data_packet_equal
      (data_packet_create data_packet zero_id zero_id 1 64 [])
      (data_packet_create_full data_packet zero_id zero_id 1 64 true 0 [])
    ≡ false
unfolding data_packet_create data_packet_create_full data_packet_equal bytes_eq
create_run = refl

to_string_packet : to_string ack ≡ "ACK"
unfolding to_string
to_string_packet = refl
