-- ===== src/Codec.antt =====
-- include/protocol/message.hpp and src/protocol/codec.cpp: the framing of messages on a stream.
pub mod RoundTrip
mod Tests
use Prim.Native.String.{String}
use madoka.Common.{
  ℕ, ◌+◌, ◌/◌, ◌%◌, ◌^◌, Bool, true, false, ◌||◌, List, [], ◌∷◌, ◌++◌, Option, none, some, length,
  ltb, leb, ◌==◌, if◌then◌else◌, not,
}
use madoka.Bytes.Slice.{Result, ok, err, ◌>>=◌, ◌>>◌, check, byte_at, slice}
use madoka.Bytes.Words.{write_u16_be, read_u16_be}

-- `enum class MessageType : uint8_t`: its value is a byte, which a cast may have made and which need
-- not be one of the enumerators.
abbrev pub MessageType : Type 0
MessageType = ℕ

abbrev pub hello : MessageType
hello = 1

abbrev pub keep_alive : MessageType
keep_alive = 2

abbrev pub data_message : MessageType
data_message = 3

abbrev pub control : MessageType
control = 4

-- `to_string(MessageType)`
unfoldable pub to_string : MessageType → String
to_string t =
    if t == hello
    then "Hello"
    else if t == keep_alive
    then "KeepAlive"
    else if t == data_message
    then "Data"
    else if t == control
    then "Control"
    else "Unknown"

abbrev pub protocol_version : ℕ
protocol_version = 1

abbrev pub header_size : ℕ
header_size = 4

abbrev pub max_message_size : ℕ
max_message_size = 4096

abbrev pub max_payload_size : ℕ
max_payload_size = 4092

pub record Message : Type 0 where
  pub version : ℕ
  pub type : MessageType
  pub payload : List ℕ

-- The messages written to `*error`, with the numbers that they show.
pub data CodecError : Type 0 where
  unsupported_version unrecognized_type payload_too_large buffer_too_small : ℕ → CodecError
  incomplete_buffer : ℕ → ℕ → CodecError

-- The comparison of a type with the four enumerators.
abbrev pub is_known_type : MessageType → Bool
is_known_type t = t == hello || t == keep_alive || t == data_message || t == control

-- `none` where the source returns true.
unfoldable pub message_validate : Message → Option CodecError
message_validate msg =
    if not (msg.version == protocol_version)
    then some (unsupported_version msg.version)
    else if not (is_known_type msg.type)
    then some (unrecognized_type msg.type)
    else if ltb max_payload_size (length msg.payload)
    then some (payload_too_large (length msg.payload))
    else none

-- The frame of a message that has been validated. `length` is the size as a `uint16_t`.
abbrev frame : Message → List ℕ
frame msg = msg.version ∷ msg.type ∷ write_u16_be (length msg.payload % 2 ^ 16) ++ msg.payload

unfoldable pub message_encode : Message → List ℕ
unfolding message_validate write_u16_be
message_encode msg = elim (message_validate msg) [ some e ↦ [] | none ↦ frame msg ]

unfoldable pub message_decode : List ℕ → Result CodecError Message
unfolding byte_at slice read_u16_be
message_decode bytes = do
  check (not (ltb (length bytes) header_size)) (buffer_too_small (length bytes))
  version ← byte_at bytes 0
  check (version == protocol_version) (unsupported_version version)
  type_raw ← byte_at bytes 1
  check (is_known_type type_raw) (unrecognized_type type_raw)
  size ← read_u16_be bytes 2
  check (leb size max_payload_size) (payload_too_large size)
  check (not (ltb (length bytes) (header_size + size)))
      (incomplete_buffer (header_size + size) (length bytes))
  payload ← slice bytes header_size size
  ok (record { version = version; type = type_raw; payload = payload })

-- The source returns `nullopt` where this is an error; a buffer that is too small writes no message.
unfoldable pub message_peek_size : List ℕ → Result CodecError ℕ
unfolding byte_at read_u16_be
message_peek_size bytes = do
  check (not (ltb (length bytes) header_size)) (buffer_too_small (length bytes))
  version ← byte_at bytes 0
  check (version == protocol_version) (unsupported_version version)
  type_raw ← byte_at bytes 1
  check (is_known_type type_raw) (unrecognized_type type_raw)
  size ← read_u16_be bytes 2
  check (leb size max_payload_size) (payload_too_large size)
  ok (header_size + size)
