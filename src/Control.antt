-- ===== src/Control.antt =====
-- include/network/control_message.hpp and src/network/control_message.cpp: control messages, and
-- the two hooks through which they are sent and handled. The hooks are globals behind a mutex, which
-- is not modelled: each call copies a hook under the lock and calls the copy after it.
pub mod Gate
mod Tests
use Prim.Native.String.{String}
use madoka.Common.{
  ℕ, Bool, true, false, ◌||◌, ◌&&◌, List, [], ◌∷◌, Option, none, some, length, ltb, leb, ◌==◌,
  if◌then◌else◌, not,
}
use madoka.Bytes.{NodeId, bytes_eq}
use madoka.Peers.Peer.{Peer, is_connected}

-- `enum class ControlMessageType : uint8_t`, a byte of which Invalid = 0 and nine values are named.
abbrev pub ControlMessageType : Type 0
ControlMessageType = ℕ

unfoldable pub to_string : ControlMessageType → String
to_string t =
    if t == 1
    then "HELLO"
    else if t == 2
    then "NEIGHBOR_ADVERTISEMENT"
    else if t == 3
    then "ROUTE_ADVERTISEMENT"
    else if t == 4
    then "JOIN_REQUEST"
    else if t == 5
    then "JOIN_RESPONSE"
    else if t == 6
    then "FIND_NODE"
    else if t == 7
    then "NEIGHBORS"
    else if t == 8
    then "NODE_ANNOUNCE"
    else if t == 9
    then "NODE_ANNOUNCE_ACK"
    else "Invalid"

pub record ControlMessage : Type 0 where
  pub type : ControlMessageType
  pub sequence_number : ℕ
  pub sender : NodeId
  pub payload : List ℕ

-- `ControlMessage::is_valid`
unfoldable pub is_valid : ControlMessage → Bool
is_valid m = not (m.type == 0)

unfoldable pub control_message_create : ControlMessageType → ℕ → NodeId → List ℕ → ControlMessage
control_message_create type sequence_number sender payload = record {
  type = type;
  sequence_number = sequence_number;
  sender = sender;
  payload = payload;
}

-- The messages written to `*error`, with the numbers that they show.
pub data ControlError : Type 0 where
  bad_control_type control_payload_too_large : ℕ → ControlError

abbrev pub max_control_payload : ℕ
max_control_payload = 65536

-- The comparison of a type with the nine enumerators.
abbrev pub is_known_type : ControlMessageType → Bool
is_known_type t =
    t == 1 || t == 2 || t == 3 || t == 4 || t == 5 || t == 6 || t == 7 || t == 8 || t == 9

-- `none` where the source returns true.
unfoldable pub control_message_validate : ControlMessage → Option ControlError
control_message_validate m =
    if not (is_known_type m.type)
    then some (bad_control_type m.type)
    else if ltb max_control_payload (length m.payload)
    then some (control_payload_too_large (length m.payload))
    else none

-- `g_sender_hook` and `g_handler_hook`: which of the two are set.
pub record Hooks : Type 0 where
  pub sender_hook : Bool
  pub handler_hook : Bool

-- A call of a hook.
pub data ControlEvent : Type 0 where
  sent : Peer → ControlMessage → ControlEvent
  handled : ControlMessage → ControlEvent

unfoldable pub set_control_message_sender : Hooks → Bool → Hooks
set_control_message_sender hooks sender = record hooks { sender_hook = sender }

unfoldable pub set_control_message_handler : Hooks → Bool → Hooks
set_control_message_handler hooks handler = record hooks { handler_hook = handler }

unfoldable pub send_control_message : Hooks → Peer → ControlMessage → List ControlEvent
unfolding control_message_validate
send_control_message hooks peer message =
    if not (is_connected peer.state) then [] else elim (control_message_validate message) [
      | some e ↦ []
      | none ↦ if hooks.sender_hook then sent peer message ∷ [] else []
    ]

unfoldable pub handle_control_message : Hooks → ControlMessage → List ControlEvent
unfolding control_message_validate
handle_control_message hooks message = elim (control_message_validate message) [
  | some e ↦ []
  | none ↦ if hooks.handler_hook then handled message ∷ [] else []
]
