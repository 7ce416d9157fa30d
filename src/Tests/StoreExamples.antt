-- ===== src/Tests/StoreExamples.antt =====
-- The theorems on the message store, and on what is found in it, at concrete inputs.
use mathlib.Core.List.{Memᴰ}
use rbft.Base.{◌≡◌, refl, [], ◌∷◌, some, true, arith, inr, keep, AllOf, ◌==◌}
use rbft.Types.{ProposalJustification}
use rbft.Env.{verify_message}
use rbft.Chain
use rbft.Message.{
  components, author, check_authors, check_signatures, check_digest, proposer, round_zero_index,
}
use rbft.Message
use rbft.State.{
  NodeState, add_messages, has_key, accepts, messages_received, messages_received_at_round,
  get_new_block,
}
use rbft.State
use rbft.State.Store.{IsStore, IsPruned}
use rbft.State.Intake.{Origin, add_messages-Origin, add_messages-IsStore, add_messages-keeps}
use rbft.State.Rounds.{messages_received_at_round_lem}
use rbft.Changes.{valid_round_changes}
use rbft.Justify.{
  is_proposal_justification, fresh_justification, validate_non_prepared_block, round_acceptable,
}
use rbft.Received.{
  has_received_proposal_justification, is_received_proposal_justification,
  received_blocks_in_round_changes, highest_prepared_round, dedup_numbers,
}
use rbft.Received.Found.{IsFound, has_received-IsFound}
use rbft.BlockOrder
use rbft.Runs.Invariant.{new-Inv}
use rbft.Tests.{test_env, test_chain, test_config, start, block_of, prepare_in, round_change_to}

start-IsStore : IsStore start
start-IsStore = (new-Inv test_chain test_config 2 (some 2) 104 refl).store

Origin-example :
    AllOf
      (Origin start (prepare_in 0 3 ∷ []))
      (add_messages start (prepare_in 0 3 ∷ []) 105).messages_received
Origin-example = add_messages-Origin start (prepare_in 0 3 ∷ []) 105

intake_example :
    IsStore (add_messages start (prepare_in 0 3 ∷ prepare_in 0 1 ∷ []) 105)
    × IsPruned (add_messages start (prepare_in 0 3 ∷ prepare_in 0 1 ∷ []) 105)
intake_example = add_messages-IsStore start (prepare_in 0 3 ∷ prepare_in 0 1 ∷ []) 105 start-IsStore

keeps_example :
    has_key
      (add_messages start (prepare_in 0 3 ∷ []) 105).message_keys
      (components (prepare_in 0 3))
    ≡ true
unfolding State.new Chain.height Message.height accepts check_authors check_signatures check_digest
    verify_message author
keeps_example =
    add_messages-keeps start (prepare_in 0 3 ∷ []) 105 (prepare_in 0 3) (omega arith)
      (inr (Memᴰ.head refl, refl))

-- A store with a message of round 0 and one of round 1, and a block to propose.
abbrev holding : NodeState
holding = record start {
  blockchain = record test_chain { proposed_block = some (block_of 5 0 2 []) };
  messages_received = prepare_in 0 3 ∷ round_change_to 1 4 ∷ [];
  message_keys = (5, 0, 1, 3) ∷ (5, 1, 3, 4) ∷ [];
  first_future_message = 2;
}

holding-IsStore : IsStore holding
unfolding components author
holding-IsStore = record {
  sorted = ((refl, tt), (tt, tt));
  indexed = λ k. refl;
  slice = omega arith;
}

at_round_example :
    messages_received_at_round holding 1
    ≡ keep (λ m. Message.round m == 1) (messages_received holding)
unfolding messages_received components author Message.height Message.round
at_round_example =
    messages_received_at_round_lem holding 1 5 holding-IsStore (refl, (refl, tt)) (refl, (refl, tt))

abbrev found : ProposalJustification
found = record { round = 0; round_changes = []; prepares = []; block = block_of 5 0 2 [] }

holding-found : has_received_proposal_justification holding ≡ some found
unfolding has_received_proposal_justification is_received_proposal_justification
    received_blocks_in_round_changes highest_prepared_round dedup_numbers valid_round_changes
    is_proposal_justification fresh_justification validate_non_prepared_block round_acceptable
    proposer round_zero_index Chain.height State.new messages_received messages_received_at_round
    get_new_block Message.round BlockOrder.dedup BlockOrder.sort
holding-found = refl

found_example : IsFound holding found
found_example = has_received-IsFound holding found holding-found
