-- ===== src/Lifecycle/History.antt =====
-- Whole histories of requested transitions, granted or refused.
use madoka.Common.{◌≤◌, ◌≡◌, ◌≢◌, refl, Bool, true, false, List, [], ◌∷◌, arith, length, any_of}
use madoka.Lifecycle.{
  NodeState, created, discovering, joining_network, active, leaving, node_state_can_transition,
  node_state_transition,
}

-- The states after each of the requests.
unfoldable pub history : NodeState → List NodeState → List NodeState
unfolding node_state_transition
history s [] = []
history s (to ∷ rest) = let next = (node_state_transition s to).0 in next ∷ history next rest

-- The state after all of the requests.
unfoldable pub final : NodeState → List NodeState → NodeState
unfolding node_state_transition
final s [] = s
final s (to ∷ rest) = final (node_state_transition s to).0 rest

abbrev pub is_discovering : NodeState → Bool
is_discovering s = elim s [ discovering ↦ true | _ ↦ false ]

abbrev pub is_leaving : NodeState → Bool
is_leaving s = elim s [ leaving ↦ true | _ ↦ false ]

-- Whatever is requested of a CREATED node, if it does not end as CREATED it has been DISCOVERING:
-- there is no way to JOINING_NETWORK, ACTIVE or LEAVING around it.
discovering_first :
    (requests : List NodeState)
    → final created requests ≢ created
    → any_of is_discovering (history created requests) ≡ true
unfolding any_of history final node_state_transition node_state_can_transition
discovering_first [] h = absurd (h refl)
discovering_first (created ∷ rest) h = discovering_first rest h
discovering_first (discovering ∷ rest) h = refl
discovering_first (joining_network ∷ rest) h = discovering_first rest h
discovering_first (active ∷ rest) h = discovering_first rest h
discovering_first (leaving ∷ rest) h = discovering_first rest h

-- Whatever is requested of a node in another state than CREATED, if it ends as CREATED it has
-- been LEAVING.
pub leaving_last :
    (s : NodeState) (requests : List NodeState)
    → s ≢ created
    → final s requests ≡ created
    → any_of is_leaving (s ∷ history s requests) ≡ true
unfolding any_of history final node_state_transition node_state_can_transition
leaving_last s [] n h = absurd (n h)
leaving_last created (to ∷ rest) n h = absurd (n refl)
leaving_last discovering (created ∷ rest) n h = leaving_last discovering rest n h
leaving_last discovering (discovering ∷ rest) n h = leaving_last discovering rest n h
leaving_last discovering (joining_network ∷ rest) n h =
    leaving_last joining_network rest (λ e. cc) h
leaving_last discovering (active ∷ rest) n h = leaving_last active rest (λ e. cc) h
leaving_last discovering (leaving ∷ rest) n h = refl
leaving_last joining_network (created ∷ rest) n h = leaving_last joining_network rest n h
leaving_last joining_network (discovering ∷ rest) n h = leaving_last discovering rest (λ e. cc) h
leaving_last joining_network (joining_network ∷ rest) n h = leaving_last joining_network rest n h
leaving_last joining_network (active ∷ rest) n h = leaving_last active rest (λ e. cc) h
leaving_last joining_network (leaving ∷ rest) n h = refl
leaving_last active (created ∷ rest) n h = leaving_last active rest n h
leaving_last active (discovering ∷ rest) n h = leaving_last discovering rest (λ e. cc) h
leaving_last active (joining_network ∷ rest) n h = leaving_last active rest n h
leaving_last active (active ∷ rest) n h = leaving_last active rest n h
leaving_last active (leaving ∷ rest) n h = refl
leaving_last leaving (to ∷ rest) n h = refl

abbrev way_out : NodeState → List NodeState
way_out created = []
way_out leaving = created ∷ []
way_out _ = leaving ∷ created ∷ []

-- From every state at most two requests lead back to CREATED.
pub can_leave :
    (s : NodeState)
    → (requests : List NodeState) × (length requests ≤ 2) × (final s requests ≡ created)
unfolding final node_state_transition node_state_can_transition
can_leave created = (way_out created, omega arith, refl)
can_leave discovering = (way_out discovering, omega arith, refl)
can_leave joining_network = (way_out joining_network, omega arith, refl)
can_leave active = (way_out active, omega arith, refl)
can_leave leaving = (way_out leaving, omega arith, refl)
