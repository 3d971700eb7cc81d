-- ===== src/Lifecycle/Tests.antt =====
-- The state machine on concrete requests, and the theorems on them.
use madoka.Common.{◌≡◌, ◌≢◌, refl, List, [], ◌∷◌}
use madoka.Lifecycle.{
  NodeState, created, discovering, joining_network, active, leaving, to_string,
  node_state_transition, node_state_can_transition,
}
use madoka.Lifecycle.History.{final}

abbrev start_up : List NodeState
start_up = active ∷ discovering ∷ joining_network ∷ active ∷ []

start_up_done : final created start_up ≢ created
unfolding final node_state_transition node_state_can_transition
start_up_done e = cc

abbrev shut_down : List NodeState
shut_down = created ∷ leaving ∷ created ∷ []

to_string_state : to_string joining_network ≡ "JOINING_NETWORK"
unfolding to_string
to_string_state = refl
