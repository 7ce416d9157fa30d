-- ===== src/Tests/Forked.antt =====
-- Validators 1 and 4 on the way to two blocks of one height: they commit to one in round 0, and to
-- another, which the leader of round 1 proposes with round changes that name the first as prepared, in
-- round 1. Here a hash tells headers apart, and a signature carries what it signs.
use rbft.Base.{ℕ, ◌+◌, ◌-◌, ◌*◌, ◌≡◌, refl, List, [], ◌∷◌, ◌++◌, some, arith, ok, ap, ◌∙◌}
use rbft.Types.{
  Address, Signature, Block, Proposal, SignedRoundChange, QbftMessage, proposal, prepare, commit,
}
use rbft.Env.{Env, digest, sign_message, validate_digest, verify_message}
use rbft.Chain.{Blockchain}
use rbft.State.{NodeState, add_messages}
use rbft.Node.{node_next, node_next_sub_step, or_else, try_each}
use rbft.Sign.{sign_bytes, sign_commit, sign_hash, sign_prepare}
use rbft.Runs.Steady.{commit_to}
use rbft.Tests.{block_of, test_chain, test_config}
use rbft.Changes.{valid_round_change}
use rbft.Justify.{
  as_of_round, fresh_justification, highest_supported, is_proposal_justification, is_valid_proposal,
  prepared_support, round_acceptable, validate_non_prepared_block,
}
use rbft.Node.Normal.{
  accept_proposal, has_sent_commit, multicast, prepare_quorum, send_commit, upon_block_timeout,
  upon_block_timeout_ready, upon_new_block, upon_prepare, upon_proposal, valid_new_block_in,
  valid_proposal_in,
}
use rbft.Quorum.{quorum}
use rbft.Votes.{valid_prepares_for_height_round_and_digest}
use rbft.Chain
use rbft.State
use rbft.Message

-- The digits of a list of small numbers.
abbrev code : List ℕ → ℕ
code [] = 0
code (x ∷ xs) = x + 1000 * code xs

pub sign_back : (k n : ℕ) → k + 10 * n - 10 * n ≡ k
sign_back k n = omega arith

instance abbrev pub chain_env : Env
chain_env = record {
  keccak256 = code;
  encode_header = λ h. h.height ∷ h.round_number ∷ h.timestamp ∷ [];
  encode_proposal = λ u. u.height ∷ u.round ∷ u.digest ∷ [];
  encode_prepare = λ u. u.height ∷ u.round ∷ u.digest ∷ [];
  encode_commit = λ u. u.height ∷ u.round ∷ u.digest ∷ [];
  encode_new_block = λ u. u.height ∷ u.round ∷ u.digest ∷ [];
  encode_round_change = λ u. u.height ∷ u.round ∷ [];
  hash_bytes = λ h. h ∷ [];
  signer_address = λ k. some k;
  sign_message_sync = λ k m. k + 10 * code m;
  recover_address = λ s m. some (s - 10 * code m);
  f64_add = λ a b. a + b;
  f64_mul = λ a b. a * b;
  f64_pow2 = λ n. n + 1;
  f64_of_u64 = λ n. n;
  f64_ceil_u64 = λ n. n;
  sign_recovers = λ k m a e. ap some (sign_back k (code m)) ∙ e;
}

abbrev pub signed_with : Address → List ℕ → Signature
signed_with k m = record { author = k; signature = k + 10 * code m }

abbrev pub first_block : Block
first_block = block_of 5 0 2 []

abbrev pub second_block : Block
second_block = record (block_of 5 1 3 []) {
  header = record ((block_of 5 1 3 []).header) { timestamp = 107 };
}

abbrev pub digest_of : Block → ℕ
digest_of b = code (b.header.height ∷ b.header.round_number ∷ b.header.timestamp ∷ [])

-- It names the first block as prepared in round 0.
abbrev to_round_1 : Address → SignedRoundChange
to_round_1 a = record {
  unsigned_payload = record {
    height = 5;
    round = 1;
    prepared_value = some (digest_of first_block);
    prepared_round = some 0;
  };
  signature = signed_with a (5 ∷ 1 ∷ []);
}

abbrev proposal_of : Address → ℕ → Block → List SignedRoundChange → Proposal
proposal_of leader round b rcs = record {
  proposal_payload = record {
    unsigned_payload = record { height = 5; round = round; digest = digest_of b };
    signature = signed_with leader (5 ∷ round ∷ digest_of b ∷ []);
  };
  proposed_block = b;
  proposal_justification = rcs;
  round_change_justification = [];
}

abbrev vote_for : ℕ → Block → Address → QbftMessage
vote_for round b a = prepare (record {
  prepare_payload = record {
    unsigned_payload = record { height = 5; round = round; digest = digest_of b };
    signature = signed_with a (5 ∷ round ∷ digest_of b ∷ []);
  };
})

abbrev pub first_votes : List QbftMessage
first_votes =
    proposal (proposal_of 2 0 first_block [])
    ∷ vote_for 0 first_block 1
    ∷ vote_for 0 first_block 3
    ∷ vote_for 0 first_block 4
    ∷ []

abbrev pub second_votes : List QbftMessage
second_votes =
    proposal (proposal_of 3 1 second_block (to_round_1 1 ∷ to_round_1 3 ∷ to_round_1 4 ∷ []))
    ∷ vote_for 1 second_block 1
    ∷ vote_for 1 second_block 3
    ∷ vote_for 1 second_block 4
    ∷ []

abbrev pub begin : Address → NodeState
begin a = State.new test_chain test_config a (some a) 104

abbrev first_proposal : Proposal
first_proposal = proposal_of 2 0 first_block []

abbrev pub second_proposal : Proposal
second_proposal = proposal_of 3 1 second_block (to_round_1 1 ∷ to_round_1 3 ∷ to_round_1 4 ∷ [])

-- With the first proposal and its prepares.
abbrev pub told : Address → NodeState
told a = record (begin a) {
  local_time = 106;
  messages_received = first_votes;
  message_keys = (5, 0, 1, 4) ∷ (5, 0, 1, 3) ∷ (5, 0, 1, 1) ∷ (5, 0, 0, 2) ∷ [];
  first_future_message = 4;
}

abbrev pub accepted : Address → NodeState
accepted a = record (told a) { proposal_accepted_for_current_round = some first_proposal }

abbrev own_commit : Address → ℕ → Block → QbftMessage
own_commit a round b = commit (record { commit_payload = commit_to a a 5 round b })

abbrev pub committed : Address → NodeState
committed a = record (accepted a) {
  last_prepared_block = some first_block;
  last_prepared_round = some 0;
  messages_received = first_votes ++ (own_commit a 0 first_block ∷ []);
  message_keys = (5, 0, 2, a) ∷ (told a).message_keys;
}

abbrev pub told_again : Address → NodeState
told_again a = record (committed a) {
  local_time = 107;
  messages_received = (committed a).messages_received ++ second_votes;
  message_keys =
      (5, 1, 1, 4) ∷ (5, 1, 1, 3) ∷ (5, 1, 1, 1) ∷ (5, 1, 0, 3) ∷ (committed a).message_keys;
  first_future_message = 9;
}

abbrev pub accepted_again : Address → NodeState
accepted_again a = record (told_again a) {
  round = 1;
  proposal_accepted_for_current_round = some second_proposal;
  time_last_round_start = 107;
}

abbrev pub committed_again : Address → NodeState
committed_again a = record (accepted_again a) {
  last_prepared_block = some second_block;
  last_prepared_round = some 1;
  messages_received = (told_again a).messages_received ++ (own_commit a 1 second_block ∷ []);
  message_keys = (5, 1, 2, a) ∷ (told_again a).message_keys;
}

abbrev Steps : NodeState → ℕ → NodeState → QbftMessage → Type 0
Steps s time t m = node_next s time ≡ ok (t, record { message = m; recipient = 0 } ∷ [])

pub record Trace (a : Address) : Type 0 where
  pub receives : add_messages (begin a) first_votes 106 ≡ told a
  pub accepts : Steps (told a) 106 (accepted a) (vote_for 0 first_block a)
  pub commits : Steps (accepted a) 106 (committed a) (own_commit a 0 first_block)
  pub receives_again : add_messages (committed a) second_votes 107 ≡ told_again a
  pub accepts_again : Steps (told_again a) 107 (accepted_again a) (vote_for 1 second_block a)
  pub commits_again : Steps (accepted_again a) 107 (committed_again a) (own_commit a 1 second_block)

pub walk_1 : Trace 1
unfolding Chain.height Chain.prune Message.round_zero_index Message.proposer Message.height
    Message.components Message.check_digest Message.check_signatures Message.check_authors quorum
    sign_bytes sign_prepare sign_commit sign_hash State.new State.insert_sorted
    State.insert_message_sorted State.remove_keys State.prune_messages_below_height State.accepts
    State.add_message add_messages State.messages_received State.set_last_prepared_block_and_round
    valid_prepares_for_height_round_and_digest valid_round_change highest_supported
    validate_non_prepared_block as_of_round prepared_support fresh_justification
    is_proposal_justification round_acceptable is_valid_proposal sign_message verify_message digest
    validate_digest or_else try_each node_next_sub_step node_next multicast upon_block_timeout_ready
    upon_block_timeout accept_proposal valid_proposal_in upon_proposal has_sent_commit send_commit
    prepare_quorum upon_prepare valid_new_block_in upon_new_block
walk_1 = record {
  receives = refl;
  accepts = refl;
  commits = refl;
  receives_again = refl;
  accepts_again = refl;
  commits_again = refl;
}

pub walk_4 : Trace 4
unfolding Chain.height Chain.prune Message.round_zero_index Message.proposer Message.height
    Message.components Message.check_digest Message.check_signatures Message.check_authors quorum
    sign_bytes sign_prepare sign_commit sign_hash State.new State.insert_sorted
    State.insert_message_sorted State.remove_keys State.prune_messages_below_height State.accepts
    State.add_message add_messages State.messages_received State.set_last_prepared_block_and_round
    valid_prepares_for_height_round_and_digest valid_round_change highest_supported
    validate_non_prepared_block as_of_round prepared_support fresh_justification
    is_proposal_justification round_acceptable is_valid_proposal sign_message verify_message digest
    validate_digest or_else try_each node_next_sub_step node_next multicast upon_block_timeout_ready
    upon_block_timeout accept_proposal valid_proposal_in upon_proposal has_sent_commit send_commit
    prepare_quorum upon_prepare valid_new_block_in upon_new_block
walk_4 = record {
  receives = refl;
  accepts = refl;
  commits = refl;
  receives_again = refl;
  accepts_again = refl;
  commits_again = refl;
}
