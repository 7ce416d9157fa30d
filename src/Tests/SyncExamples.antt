-- ===== src/Tests/SyncExamples.antt =====
-- The theorems on the sync with the execution layer, over a small one: its state is the number of its
-- best block and that of the last payload, and the body of a block is its number.
use rbft.Base.{
  ok, Bool-cases, inl, inr, ℕ, ◌≤◌, ◌+◌, ◌≡◌, refl, [], ◌∷◌, Option, none, some, true, ◌==◌, leb,
  if◌then◌else◌, arith, Gives, ap, sym,
}
use rbft.Types.{Address, Bytes, BlockRequest, BlockResponse, Proposal}
use rbft.Env.{block_new}
use rbft.Chain
use rbft.State.{NodeState}
use rbft.State
use rbft.Node.Invariant.{Inv}
use rbft.Runs.Invariant.{Held, new-Inv}
use rbft.Driver.Contract.{
  Storage, Provider, default_config, get_on_chain_config, epoch_config, num_validators,
}
use rbft.Driver.Contract.Total.{HasEpochs}
use rbft.Driver.Reth.{Reth, SealedBlock}
use rbft.Driver.Sync.{
  signed_with, signed_block_at, collect_blocks, last_height, handle_block_request,
  handle_block_response, gather,
}
use rbft.Driver.Sync.Answers.{AreConsecutive, IsAnswer, handle_block_request-IsAnswer}
use rbft.Driver.Sync.Imports.{
  Imported, handle_block_response-Imported, TakesEach, last_block, handle_block_response-catches_up,
}
use rbft.Driver.Screening.{
  PayloadView, items, RawRlp, extract_rlp_block_metadata, validate_block_payload_metadata,
  validate_proposal_with_validator, IsScreened, validate_proposal-IsScreened,
}
use rbft.Driver.Advance.{handle_block_responses, advance}
use rbft.Driver.Commit.{Turn}
use rbft.Driver.Advance.Offered.{Builds, InSync}
use rbft.Driver.Advance.InStep.{MovesTip, InStep}
use rbft.Driver.Advance.Synced.{advance-InStep}
use rbft.Driver.Advance.Held.{advance-Held}
use rbft.Tests.{
  test_env, members, start, block_of, prepare_in, test_proposal, test_chain, test_config,
}

abbrev sealed_of : ℕ → Address → SealedBlock
sealed_of n a = record { number = n; timestamp = 100 + n; beneficiary = a; hash = n; content = 0 }

-- A contract whose epochs have 4 blocks, with no validators.
abbrev four_slots : Storage
four_slots slot = if slot == 4 then some 4 else none

abbrev small_provider : Provider
small_provider = record {
  latest = some four_slots;
  state_by_block_number = λ n. some four_slots;
  header_hash = λ n. some n;
  parse_enode_lossy = λ bytes. none;
  parse_enode = λ bytes. none;
}

instance abbrev small_reth : Reth
small_reth = record {
  State = ℕ × ℕ;
  best_block_number = λ r. r.0;
  block = λ r h. if leb h r.0 then some (sealed_of h 2) else none;
  encode_sealed = λ b. b.number ∷ [];
  decode_sealed = λ bytes. elim bytes [ [] ↦ none | n ∷ rest ↦ some (sealed_of n 2, rest) ];
  provider = λ r. small_provider;
  new_payload = λ r b. ((r.0, b.number), b.number == r.0 + 1);
  fork_choice_updated = λ r h. ((r.1, r.1), true);
  validate_header = λ b. true;
  build_payload = λ r latest time a. (r, some (sealed_of (r.0 + 1) a));
}

-- A body is a list of one header, and that a list of twelve fields, with the address, the number and the
-- time where they are read.
abbrev decode_view : Bytes → Option (PayloadView × Bytes)
decode_view [] = none
decode_view (n ∷ []) = some (items ((n ∷ n ∷ []) ∷ []), [])
decode_view (n ∷ m ∷ _) = some (
  items ([] ∷ [] ∷ (2 ∷ []) ∷ [] ∷ [] ∷ [] ∷ [] ∷ [] ∷ (m ∷ []) ∷ [] ∷ [] ∷ ((100 + m) ∷ []) ∷ []),
  [],
)

abbrev decode_one : Bytes → Option ℕ
decode_one [] = none
decode_one (n ∷ _) = some n

instance abbrev small_raw : RawRlp
small_raw = record {
  decode_raw = decode_view;
  decode_exact_u64 = decode_one;
  decode_exact_address = decode_one;
}

abbrev asked : BlockRequest
asked = record { from_height = 3; to_height = 9 }

-- The answer of a node whose best block is 4.
abbrev answer : BlockResponse
answer = record {
  blocks =
      signed_with (default_config 4) 3 (sealed_of 3 2)
      ∷ signed_with (default_config 4) 4 (sealed_of 4 2)
      ∷ [];
}

answered : handle_block_request (4, 0) asked ≡ ok (some answer)
unfolding handle_block_request last_height collect_blocks signed_block_at get_on_chain_config
    epoch_config num_validators
answered = refl

handle_block_request-IsAnswer_example : IsAnswer (4, 0) asked answer
handle_block_request-IsAnswer_example = handle_block_request-IsAnswer (4, 0) asked answer answered

small_provider-HasEpochs : HasEpochs small_provider
small_provider-HasEpochs n current e = elim (Bool-cases (leb n 1)) [
  | inl l ↦ let same : four_slots ≡ current = cc in rw⁻¹ same (omega arith)
  | inr l ↦ let same : four_slots ≡ current = cc in rw⁻¹ same (omega arith)
]

start-Inv : Inv start
start-Inv = new-Inv test_chain test_config 2 (some 2) 104 refl

handle_block_response-Imported_example :
    Imported answer.blocks ((2, 0), start) (handle_block_response ((2, 0), start) answer).0
    × Inv (handle_block_response ((2, 0), start) answer).0.1
handle_block_response-Imported_example =
    handle_block_response-Imported ((2, 0), start) answer start-Inv

answer-AreConsecutive : AreConsecutive 3 answer.blocks
unfolding block_new
answer-AreConsecutive = (refl, refl, (refl, refl, tt))

answer-TakesEach : TakesEach (2, 0) answer.blocks
unfolding block_new
answer-TakesEach = (sealed_of 3 2, [], refl, refl, refl, (sealed_of 4 2, [], refl, refl, refl, tt))

handle_block_response-catches_up_example :
    ((handle_block_response ((2, 0), start) answer).1 ≡ true)
    × ((handle_block_response ((2, 0), start) answer).0.0.0 ≡ 2 + 2)
    × ((handle_block_response ((2, 0), start) answer).0.1.blockchain.head
        ≡ last_block start.blockchain.head answer.blocks)
handle_block_response-catches_up_example =
    handle_block_response-catches_up (2, 0) start answer (omega arith) (omega arith)
      answer-AreConsecutive answer-TakesEach

abbrev screened_proposal : Proposal
screened_proposal = record test_proposal {
  proposed_block = record (block_of 5 0 2 []) { body = 5 ∷ [] };
}

screened_proposal-passes : validate_proposal_with_validator screened_proposal ≡ true
unfolding validate_proposal_with_validator validate_block_payload_metadata
    extract_rlp_block_metadata
screened_proposal-passes = refl

validate_proposal-IsScreened_example : IsScreened screened_proposal
validate_proposal-IsScreened_example =
    validate_proposal-IsScreened screened_proposal screened_proposal-passes

builds_next : Builds
builds_next r latest sealed time a b e =
    let same : sealed_of (r.0 + 1) a ≡ sealed = cc in
    (ap (λ x. x.number) (sym same), ap (λ x. x.beneficiary) (sym same), refl)

-- The time for the block after 4 has come, and a prepare is in.
abbrev turn : Turn
turn = record {
  debug_catchup_block = none;
  cached_config = record (default_config 32) {
    all_validators = members;
    selected_validators = members;
    block_interval_ms = 1000;
  };
  cached_config_height = 4;
  time_ms = 105000;
  time = 105;
  reload_time = 106;
}

start-Held : Held 2 start
unfolding State.new
start-Held = (start-Inv, refl)

in_sync : InSync (
    handle_block_responses
      ((4, 0), start)
      (gather validate_proposal_with_validator (prepare_in 0 3 ∷ [])).block_responses)
unfolding gather handle_block_responses State.new Chain.height
in_sync = refl

start-round : start.round ≡ 0
unfolding State.new
start-round = refl

advance-Held_example :
    Gives (advance turn ((4, 0), start) (prepare_in 0 3 ∷ [])) (λ x. Held 2 x.0.1)
advance-Held_example =
    advance-Held 2 2 turn ((4, 0), start) (prepare_in 0 3 ∷ []) refl small_provider-HasEpochs
      builds_next start-Held (omega (arith, start-round)) in_sync

moves_tip : MovesTip
moves_tip = record {
  present = λ r. (sealed_of r.0 2, ground arith, refl);
  built = λ r latest time a. refl;
  refused = λ r sealed e. refl;
  taken = λ r sealed e f. refl;
}

not_moved_back :
    4
    ≤ small_reth.best_block_number
        (handle_block_responses
          ((4, 0), start)
          (gather validate_proposal_with_validator (prepare_in 0 3 ∷ [])).block_responses).0
unfolding gather handle_block_responses
not_moved_back = omega arith

advance-InStep_example :
    Gives (advance turn ((4, 0), start) (prepare_in 0 3 ∷ [])) (λ x. InStep x.0)
advance-InStep_example =
    advance-InStep moves_tip 2 2 turn ((4, 0), start) (prepare_in 0 3 ∷ []) refl
      small_provider-HasEpochs builds_next start-Held (omega (arith, start-round)) not_moved_back
      in_sync
