-- ===== src/Tests/VoteExamples.antt =====
-- The theorems on prepares, commits and new blocks at concrete inputs.
use mathlib.Core.List.{Memᴰ}
use rbft.Types.{new_block}
use rbft.Node.Adopted.{IsAdopted, upon_new_block-IsAdopted}
use rbft.Base.{◌≡◌, refl, [], ◌∷◌, some, true, arith, ok, Gives}
use rbft.Env.{digest, validate_digest, verify_message}
use rbft.Chain
use rbft.Message.{components, author, proposer, round_zero_index}
use rbft.Quorum.{quorum}
use rbft.Votes.{valid_commits_for_height_round_and_digest}
use rbft.Seals.{valid_new_block, seal_ok}
use rbft.Sign.{hash_block_for_commit_seal}
use rbft.State.{
  NodeState, messages_received, insert_message_sorted, set_last_prepared_block_and_round,
  is_the_proposer_for_current_round,
}
use rbft.State
use rbft.Node.Normal.{upon_new_block, upon_commit, valid_commits}
use rbft.Node.Invariant.{Inv}
use rbft.Node.Announced.{IsRejected, upon_commit-IsRejected, IsAnnounced, upon_commit-IsAnnounced}
use rbft.Tests.{block_a, prepare_in, test_env, start, test_proposal, commit_by, commit_with}

-- The leader with its proposal and the commits of three validators.
abbrev committing : NodeState
committing = record start {
  proposal_accepted_for_current_round = some test_proposal;
  messages_received = commit_by 1 ∷ commit_by 2 ∷ commit_by 3 ∷ [];
  message_keys = (5, 0, 2, 1) ∷ (5, 0, 2, 2) ∷ (5, 0, 2, 3) ∷ [];
  first_future_message = 3;
}

committing-Inv : Inv committing
unfolding components author State.new Chain.height
committing-Inv = record {
  store = record {
    sorted = ((refl, (refl, tt)), ((refl, tt), (tt, tt)));
    indexed = λ k. refl;
    slice = omega arith;
  };
  prepared = refl;
  proposed = λ b e. cc;
  accepted = λ p e. ground arith;
}

announced_example :
    Gives (upon_commit committing) (IsAnnounced committing test_proposal.proposed_block)
unfolding is_the_proposer_for_current_round proposer round_zero_index Chain.height State.new
    validate_digest valid_commits valid_commits_for_height_round_and_digest quorum messages_received
    digest seal_ok verify_message hash_block_for_commit_seal
announced_example =
    upon_commit-IsAnnounced committing test_proposal committing-Inv (2, 2, refl, refl) refl refl
      refl refl refl

-- A validator with the proposal and the prepares of three.
abbrev preparing : NodeState
preparing = record start {
  proposal_accepted_for_current_round = some test_proposal;
  messages_received = prepare_in 0 1 ∷ prepare_in 0 2 ∷ prepare_in 0 3 ∷ [];
  message_keys = (5, 0, 1, 1) ∷ (5, 0, 1, 2) ∷ (5, 0, 1, 3) ∷ [];
  first_future_message = 3;
}

abbrev committed : NodeState
committed =
    insert_message_sorted
      (set_last_prepared_block_and_round preparing test_proposal.proposed_block 0) (commit_by 2)

-- A node that has received the block of another leader's quorum.
abbrev behind : NodeState
behind = record start {
  messages_received = new_block block_a ∷ [];
  message_keys = (5, 0, 4, 2) ∷ [];
}

behind-valid : valid_new_block behind.blockchain block_a ≡ true
unfolding State.new valid_new_block seal_ok Chain.height quorum digest validate_digest
    verify_message hash_block_for_commit_seal
behind-valid = refl

adopted_example : (t : NodeState) × (upon_new_block behind ≡ ok (t, some [])) × IsAdopted behind t
adopted_example = upon_new_block-IsAdopted behind block_a (Memᴰ.head refl) behind-valid

-- The commit of validator 3 carries a seal with another's bytes.
abbrev misled : NodeState
misled = record committing {
  messages_received =
      commit_by 1 ∷ commit_by 2 ∷ commit_with (record { author = 3; signature = 9 }) 3 ∷ [];
}

refused_example : Gives (upon_commit misled) (IsRejected misled test_proposal.proposed_block)
unfolding is_the_proposer_for_current_round proposer round_zero_index Chain.height State.new
    valid_commits valid_commits_for_height_round_and_digest quorum messages_received digest seal_ok
    verify_message hash_block_for_commit_seal
refused_example = upon_commit-IsRejected misled test_proposal (2, 2, refl, refl) refl refl refl refl
