-- ===== src/Control/Gate.antt =====
-- Which control messages get to the hooks.
use madoka.Common.{◌≤◌, ◌≡◌, true, [], ◌∷◌, none, arith, length, ◌↔◌, ◌⊎◌}
use madoka.Peers.Peer.{Peer, connected}
use madoka.Control.{
  ControlMessage, Hooks, sent, handled, max_control_payload, control_message_validate,
  is_known_type, send_control_message, handle_control_message,
}

-- A message that may pass: one of the nine types, and a payload of at most 65536 bytes.
abbrev pub IsAdmissible : ControlMessage → Type 0
IsAdmissible m = (1 ≤ m.type) × (m.type ≤ 9) × (length m.payload ≤ max_control_payload)

validate_iff_IsAdmissible :
    (m : ControlMessage) → (control_message_validate m ≡ none) ↔ IsAdmissible m
unfolding control_message_validate
validate_iff_IsAdmissible m = (λ h. ground arith, λ h. ground arith)

pub validated :
    (m : ControlMessage)
    → control_message_validate m ≡ none
    → (is_known_type m.type ≡ true) × (length m.payload ≤ max_control_payload)
unfolding control_message_validate
validated m h = (ground arith, ground arith)

-- A message is handed to the sender's hook, unchanged and once, exactly when its peer is connected,
-- it has one of the nine types and at most 65536 bytes of payload, and the hook is set; otherwise
-- nothing is called.
send_iff :
    (hooks : Hooks) (peer : Peer) (m : ControlMessage)
    → let events = send_control_message hooks peer m in
      ((events ≡ sent peer m ∷ [])
        ↔ ((peer.state ≡ connected) × IsAdmissible m × (hooks.sender_hook ≡ true)))
      × ((events ≡ []) ⊎ (events ≡ sent peer m ∷ []))
unfolding send_control_message
send_iff hooks peer m =
    let valid = validate_iff_IsAdmissible m in
    ((λ h. ground (arith, valid), λ h. ground (arith, valid)), ground arith)

-- A received message is handed to the handler's hook, unchanged and once, exactly when it has one of
-- the nine types and at most 65536 bytes of payload, and the hook is set; otherwise nothing is called.
pub handle_iff :
    (hooks : Hooks) (m : ControlMessage)
    → let events = handle_control_message hooks m in
      ((events ≡ handled m ∷ []) ↔ (IsAdmissible m × (hooks.handler_hook ≡ true)))
      × ((events ≡ []) ⊎ (events ≡ handled m ∷ []))
unfolding handle_control_message
handle_iff hooks m =
    let valid = validate_iff_IsAdmissible m in
    ((λ h. ground (arith, valid), λ h. ground (arith, valid)), ground arith)
