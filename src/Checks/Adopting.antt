-- ===== src/Checks/Adopting.antt =====
-- When a chain, and a state, pass the checks.
use rbft.Base.{◌+◌, ◌^◌, ◌<◌, ◌≡◌, [], true, false, not, arith, ok, panic, contains, is_empty}
use rbft.Types.{Block}
use rbft.Env.{Env}
use rbft.Chain.{Blockchain}
use rbft.Chain
use rbft.State.{NodeState, new_round}
use rbft.Node.Normal.{adopt}
use rbft.Checks.{state_blockchain_invariant, valid_node_state}

-- A chain of one block passes or fails by its validators if the block is at height 0; at any other
-- height below 2^64 - 1 the check panics.
pub state_blockchain_invariant-one_block :
    (bc : Blockchain)
    → bc.older ≡ []
    → bc.head.header.height + 1 < 2 ^ 64
    → (bc.head.header.height ≡ 0
        → state_blockchain_invariant bc ≡ ok (not (is_empty (Chain.validators bc))))
      × (0 < bc.head.header.height → state_blockchain_invariant bc ≡ panic)
unfolding state_blockchain_invariant Chain.height
state_blockchain_invariant-one_block bc e small = (λ h. ground arith, λ h. ground arith)

module _ ⦃env : Env⦄ where
  -- A node that adopts a block of a height below 2^64 - 1, whose proposer is a validator of the old head
  -- and which names validators, is in a state that passes `valid_node_state`.
  pub valid_node_state-adopt :
      (s : NodeState) (b : Block)
      → b.header.height + 1 < 2 ^ 64
      → contains (Chain.validators s.blockchain) b.header.proposer ≡ true
      → is_empty b.header.validators ≡ false
      → valid_node_state (adopt s b) ≡ ok true
  unfolding valid_node_state state_blockchain_invariant adopt new_round Chain.set_head
      Chain.set_proposed_block Chain.height
  valid_node_state-adopt s b small member named = ground arith
