-- ===== src/Packet.antt =====
-- include/network/data_packet.hpp and src/network/data_packet.cpp: the packets of the data plane.
pub mod Serial
pub mod RoundTrip
pub mod Reading
pub mod Accept
mod Tests
use Prim.Native.String.{String}
use madoka.Common.{ℕ, Bool, true, false, ◌&&◌, List, ◌==◌, if◌then◌else◌}
use madoka.Bytes.{NodeId, bytes_eq}

-- The enumerators are DATA = 0, ACK = 1 and Invalid = 255; a value made by a cast of another byte has
-- no constructor, and no code of the repository makes one.
pub data PacketType : Type 0 where
  data_packet ack invalid : PacketType

-- `static_cast<uint8_t>(type)`
unfoldable pub type_byte : PacketType → ℕ
type_byte data_packet = 0
type_byte ack = 1
type_byte invalid = 255

-- `to_string(PacketType)`
unfoldable pub to_string : PacketType → String
to_string data_packet = "DATA"
to_string ack = "ACK"
to_string invalid = "Invalid"

pub record DataPacket : Type 0 where
  pub type : PacketType
  pub source : NodeId
  pub destination : NodeId
  pub packet_id : ℕ
  pub ttl : ℕ
  pub requires_ack : Bool
  pub sequence_number : ℕ
  pub payload : List ℕ

-- `DataPacket::is_valid`
unfoldable pub is_valid : DataPacket → Bool
unfolding type_byte
is_valid p = elim p.type [ data_packet ↦ true | ack ↦ true | invalid ↦ false ]

-- The full overload of `data_packet_create`, and the short one.
unfoldable pub data_packet_create_full :
    PacketType → NodeId → NodeId → ℕ → ℕ → Bool → ℕ → List ℕ → DataPacket
data_packet_create_full type source destination packet_id ttl requires_ack sequence payload =
    record {
      type = type;
      source = source;
      destination = destination;
      packet_id = packet_id;
      ttl = ttl;
      requires_ack = requires_ack;
      sequence_number = sequence;
      payload = payload;
    }

unfoldable pub data_packet_create : PacketType → NodeId → NodeId → ℕ → ℕ → List ℕ → DataPacket
unfolding data_packet_create_full
data_packet_create type source destination packet_id ttl payload =
    data_packet_create_full type source destination packet_id ttl false 0 payload

abbrev pub bool_eq : Bool → Bool → Bool
bool_eq true b = b
bool_eq false b = if b then false else true

unfoldable pub data_packet_equal : DataPacket → DataPacket → Bool
unfolding bytes_eq type_byte
data_packet_equal a b =
    type_byte a.type == type_byte b.type
    && bytes_eq a.source b.source
    && bytes_eq a.destination b.destination
    && a.packet_id == b.packet_id
    && a.ttl == b.ttl
    && bool_eq a.requires_ack b.requires_ack
    && a.sequence_number == b.sequence_number
    && bytes_eq a.payload b.payload
