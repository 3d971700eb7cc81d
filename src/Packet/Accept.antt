-- ===== src/Packet/Accept.antt =====
-- What the reader of data packets accepts, and that it stays inside its buffer.
use madoka.Common.{ℕ, ◌+◌, ◌≡◌, ◌≢◌, List, length, sym, ◌∙◌, All, subst, inl, inr}
use madoka.Bytes.{IsByte}
use madoka.Bytes.Slice.{ok-injective, ok, fault, byte_at}
use madoka.Packet.{DataPacket}
use madoka.Packet.Serial.{serialize_packet, deserialize_packet, bool_byte, PacketError}
use madoka.Packet.RoundTrip.{IsPacket}
use madoka.Packet.Reading.{reading}

-- On a buffer of bytes no read of the reader of data packets is outside the buffer.
deserialize-ne-fault : (d : List ℕ) → All IsByte d → deserialize_packet d ≢ fault
deserialize-ne-fault d bytes p = elim (reading d bytes) [
  | inl (e, h) ↦ cc
  | inr (q, h, _, _, _) ↦ cc
]

-- A buffer of bytes that is read as a packet is as long as the packet says, 83 bytes and the payload,
-- and the packet's fields fit their types, with a type other than Invalid and a payload within the limit.
deserialize-IsPacket :
    (d : List ℕ) (p : DataPacket)
    → All IsByte d
    → deserialize_packet d ≡ ok p
    → IsPacket p × (length d ≡ 83 + length p.payload)
deserialize-IsPacket d p bytes h = elim (reading d bytes) [
  | inl (e, h') ↦ absurd cc
  | inr (q, h', v, size, _) ↦
      let same : q ≡ p = ok-injective {E = PacketError} q p (sym h' ∙ h) in
      (subst IsPacket same v, rw (← same) size)
]

-- A buffer of bytes that is read as a packet, and whose byte for `requires_ack` is the 0 or 1 of the
-- packet read, is the buffer that the packet is written to.
pub serialize-deserialize :
    (d : List ℕ) (p : DataPacket)
    → All IsByte d
    → deserialize_packet d ≡ ok p
    → byte_at {E = PacketError} d 74 ≡ ok (bool_byte p.requires_ack)
    → serialize_packet p ≡ d
serialize-deserialize d p bytes h flag = elim (reading d bytes) [
  | inl (e, h') ↦ absurd cc
  | inr (q, h', _, _, again) ↦
      let same : q ≡ p = ok-injective {E = PacketError} q p (sym h' ∙ h) in
      rw (← same) (again (rw same flag))
]
