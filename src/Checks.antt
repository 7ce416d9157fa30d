-- ===== src/Checks.antt =====
-- The checks of a state that crates/rbft/src/node_auxilliary_functions.rs defines after the Dafny
-- specification (`valid_node_state`, `state_blockchain_invariant`), and the queries of
-- types/node_state.rs that read a state and change nothing.
pub mod Adopting
use rbft.Base.{
  ℕ, List, [], ◌∷◌, Option, none, some, Bool, true, false, ◌&&◌, not, ◌==◌, ltb, leb, if◌then◌else◌,
  ◌>>=◌, Exec, ok, panic, length, is_none, is_empty, contains, position, map, keep, filter_map,
  find_map,
}
use rbft.Types.{Address, Block, Proposal, SignedRoundChange, QbftMessage, proposal, round_change}
use rbft.Env.{Env, digest}
use rbft.Chain.{Blockchain}
use rbft.Chain
use rbft.Message
use rbft.Quorum.{quorum}
use rbft.State.{NodeState, messages_received, messages_received_at_round}
use rbft.Votes.{valid_prepares_for_height_round_and_digest_messages}
use rbft.Justify.{is_valid_proposal}

-- `blocks[blocks.len() - 2]`: the index is out of bounds where the head is the only block.
abbrev pub block_before_head : List Block → Exec Block
block_before_head [] = panic
block_before_head (b ∷ older) = ok b

abbrev pub proposer_check : Blockchain → Exec Bool
proposer_check bc =
    if ltb 1 (Chain.height bc)
    then (block_before_head bc.older >>= λ b.
        ok (contains b.header.validators bc.head.header.proposer))
    else ok true

unfoldable pub state_blockchain_invariant : Blockchain → Exec Bool
state_blockchain_invariant bc =
    if Chain.height bc == 0
    then ok false
    else (proposer_check bc >>= λ check. ok (check && not (is_empty (Chain.validators bc))))

module _ ⦃env : Env⦄ where
  -- A quorum of valid prepares for the prepared block, where there is one.
  abbrev pub prepared_quorum_check : NodeState → Option ℕ → Option Block → Bool
  prepared_quorum_check s (some r) (some b) =
      let vs = Chain.validators s.blockchain in
      leb (quorum (length vs)) (
        length (
          valid_prepares_for_height_round_and_digest_messages (messages_received_at_round s r)
            (Chain.height s.blockchain) r (digest b) vs))
  prepared_quorum_check s _ _ = true

  abbrev same_presence : Bool → Bool → Bool
  same_presence a b = if a then b else not b

  -- Also `NodeState::is_valid`.
  unfoldable pub valid_node_state : NodeState → Exec Bool
  valid_node_state s =
      let prepared_consistency =
        same_presence (is_none s.last_prepared_round) (is_none s.last_prepared_block) in
      let prepared_quorum = prepared_quorum_check s s.last_prepared_round s.last_prepared_block in
      state_blockchain_invariant s.blockchain >>= λ chain_ok.
      ok (prepared_consistency && prepared_quorum && chain_ok)

  abbrev valid_proposal_of : NodeState → QbftMessage → Option Proposal
  valid_proposal_of s (proposal p) = if is_valid_proposal p s then some p else none
  valid_proposal_of s _ = none

  -- Among all messages stored, those of later heights too.
  unfoldable pub valid_proposal : NodeState → Option Proposal
  valid_proposal s = find_map (valid_proposal_of s) s.messages_received

unfoldable pub validator_index : NodeState → Option ℕ
validator_index s = position (Chain.validators s.blockchain) s.id

abbrev or_99 : Option ℕ → ℕ
or_99 none = 99
or_99 (some i) = i

unfoldable pub whoami : NodeState → ℕ
whoami s = or_99 (validator_index s)

abbrev height_or_zero : Option Block → ℕ
height_or_zero none = 0
height_or_zero (some b) = b.header.height

unfoldable pub proposed_height : NodeState → ℕ
proposed_height s = height_or_zero s.blockchain.proposed_block

-- `dedup`: drops each number that equals the one before it.
abbrev pub dedup_from : ℕ → List ℕ → List ℕ
dedup_from prev [] = []
dedup_from prev (x ∷ xs) = elim (prev == x) [ true ↦ dedup_from x xs | false ↦ x ∷ dedup_from x xs ]

abbrev pub dedup : List ℕ → List ℕ
dedup [] = []
dedup (x ∷ xs) = x ∷ dedup_from x xs

unfoldable pub get_future_rounds_from_round_changes : NodeState → List ℕ
get_future_rounds_from_round_changes s =
    dedup (keep (ltb s.round) (map Message.round (messages_received s)))

abbrev payload_of : QbftMessage → Option SignedRoundChange
payload_of (round_change rc) = some rc.round_change_payload
payload_of _ = none

unfoldable pub received_signed_round_changes_for_round : NodeState → ℕ → List SignedRoundChange
received_signed_round_changes_for_round s r = filter_map payload_of (messages_received_at_round s r)
