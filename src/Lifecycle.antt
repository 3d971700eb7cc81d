-- ===== src/Lifecycle.antt =====
-- include/network/node_state.hpp and src/network/node_state.cpp: the state machine of a node.
pub mod History
mod Tests
use Prim.Native.String.{String}
use madoka.Common.{Bool, true, false, List, [], ◌∷◌, if◌then◌else◌}

pub data NodeState : Type 0 where
  created discovering joining_network active leaving : NodeState

-- `to_string(NodeState)`
unfoldable pub to_string : NodeState → String
to_string created = "CREATED"
to_string discovering = "DISCOVERING"
to_string joining_network = "JOINING_NETWORK"
to_string active = "ACTIVE"
to_string leaving = "LEAVING"

unfoldable pub node_state_can_transition : NodeState → NodeState → Bool
node_state_can_transition created to = elim to [ discovering ↦ true | _ ↦ false ]
node_state_can_transition discovering to = elim to [ created ↦ false | _ ↦ true ]
node_state_can_transition joining_network to = elim to [
  | active ↦ true
  | discovering ↦ true
  | leaving ↦ true
  | _ ↦ false
]
node_state_can_transition active to = elim to [ leaving ↦ true | discovering ↦ true | _ ↦ false ]
node_state_can_transition leaving to = elim to [ created ↦ true | _ ↦ false ]

-- `current` after the call, and the result.
unfoldable pub node_state_transition : NodeState → NodeState → NodeState × Bool
unfolding node_state_can_transition
node_state_transition current to =
    if node_state_can_transition current to then (to, true) else (current, false)
