-- ===== src/Tests/Examples.antt =====
-- The theorems on seals, quorums, leaders, proposals and steps at concrete inputs.
use rbft.Base.{
  ℕ, ◌+◌, ◌*◌, ◌≤◌, ◌<◌, ◌≡◌, refl, List, [], ◌∷◌, some, true, false, arith, ok, Gives, length,
  contains, all, common, IsDistinct, IsWithin,
}
use rbft.Types.{QbftMessageWithRecipient}
use rbft.Env.{digest, validate_digest, verify_message}
use rbft.Chain
use rbft.Message.{proposer, round_zero_index}
use rbft.Message.Leaders.{proposer_turn}
use rbft.State.{NodeState, add_messages, messages_received}
use rbft.State
use rbft.Quorum.{f, quorum}
use rbft.Quorum.Bounds.{quorum_bounds}
use rbft.Sign.{hash_block_for_commit_seal}
use rbft.Seals.{valid_new_block, seal_ok}
use rbft.Seals.Safety.{sealers, has_sealed, valid_new_block-common-sealers}
use rbft.Justify.{
  is_valid_proposal, is_proposal_justification, fresh_justification, validate_non_prepared_block,
  round_acceptable,
}
use rbft.Justify.Sound.{IsProposed, is_valid_proposal-IsProposed}
use rbft.Node.{node_next}
use rbft.Node.Invariant.{Inv, IsStep}
use rbft.Runs.{Reach, Next, node_next-IsStep}
use rbft.Runs.Invariant.{new-Inv, run-Inv}
use rbft.Tests.{
  test_env, members, test_chain, test_config, start, block_a, block_b, prepare_in, round_change_to,
  test_proposal,
}

block_a-valid : valid_new_block test_chain block_a ≡ true
unfolding valid_new_block seal_ok Chain.height quorum digest validate_digest verify_message
    hash_block_for_commit_seal
block_a-valid = refl

block_b-valid : valid_new_block test_chain block_b ≡ true
unfolding valid_new_block seal_ok Chain.height quorum digest validate_digest verify_message
    hash_block_for_commit_seal
block_b-valid = refl

common-sealers_example :
    let both = common (sealers block_a) (sealers block_b) in
    IsDistinct both
    × IsWithin members both
    × (f (length members) < length both)
    × (all
          (has_sealed block_a.block.header.commit_seals (hash_block_for_commit_seal block_a.block))
          both
        ≡ true)
    × (all
          (has_sealed block_b.block.header.commit_seals (hash_block_for_commit_seal block_b.block))
          both
        ≡ true)
common-sealers_example =
    valid_new_block-common-sealers test_chain block_a block_b (omega arith) (omega arith)
      block_a-valid block_b-valid

quorum_bounds_example :
    (3 * f 4 < 4) × (4 ≤ 3 * f 4 + 3) × (4 + f 4 < quorum 4 + quorum 4) × (quorum 4 + f 4 ≤ 4)
quorum_bounds_example = quorum_bounds 4 (omega arith) (omega arith)

proposer_turn_example : (r : ℕ) × (r < 4) × (proposer r test_chain ≡ 3)
proposer_turn_example = proposer_turn test_chain 3 (omega arith) refl

start-Inv : Inv start
start-Inv = new-Inv test_chain test_config 2 (some 2) 104 refl

node_next_example : Gives (node_next start 107) (λ r.
    IsStep (record start { local_time = 107 }) r.0
    × (contains (Chain.validators start.blockchain) start.id ≡ false → r.1 ≡ []))
unfolding State.new
node_next_example = node_next-IsStep start 107 start-Inv (omega arith) (λ m. (2, 2, refl, refl))

abbrev told : NodeState
told = add_messages start (prepare_in 0 3 ∷ round_change_to 1 4 ∷ []) 106

told-round : told.round ≡ 0
unfolding add_messages State.add_each State.add_message State.insert_message_sorted
    State.prune_messages_below_height State.new
told-round = ground arith

run_example :
    Inv told
    × ((t : NodeState) × (out : List QbftMessageWithRecipient) × (node_next told 107 ≡ ok (t, out))
        × Inv t)
run_example =
    run-Inv test_chain test_config 2 2 2 104 107 told refl refl
      (Reach.next Reach.here (Next.receive (prepare_in 0 3 ∷ round_change_to 1 4 ∷ []) 106))
      (omega (arith, told-round))

test_proposal-valid : is_valid_proposal test_proposal start ≡ true
unfolding is_valid_proposal is_proposal_justification fresh_justification
    validate_non_prepared_block round_acceptable proposer round_zero_index Chain.height State.new
    digest
test_proposal-valid = refl

is_valid_proposal_example : IsProposed test_proposal start
is_valid_proposal_example = is_valid_proposal-IsProposed test_proposal start test_proposal-valid
