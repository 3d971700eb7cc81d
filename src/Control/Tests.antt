-- ===== src/Control/Tests.antt =====
-- A concrete control message, and the theorems on it.
use madoka.Common.{◌≡◌, refl, true, false, []}
use madoka.Bytes.{zero_id, zero_address}
use madoka.Peers.Peer.{Peer, connected}
use madoka.Control.{
  ControlMessage, Hooks, to_string, is_valid, control_message_create, set_control_message_sender,
  set_control_message_handler,
}

abbrev hello_message : ControlMessage
hello_message = record { type = 1; sequence_number = 4; sender = zero_id; payload = [] }

abbrev both : Hooks
both = record { sender_hook = true; handler_hook = true }

abbrev far_peer : Peer
far_peer = record {
  id = zero_id;
  virtual_address = zero_address;
  endpoint = [];
  state = connected;
  last_seen = 3;
}

create_is_valid : is_valid (control_message_create 1 4 zero_id []) ≡ true
unfolding is_valid control_message_create
create_is_valid = refl

to_string_control : to_string 6 ≡ "FIND_NODE"
unfolding to_string
to_string_control = refl

hooks_unset :
    (set_control_message_handler (set_control_message_sender both false) false).sender_hook ≡ false
unfolding set_control_message_handler set_control_message_sender
hooks_unset = refl
