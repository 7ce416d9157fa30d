-- ===== src/Tests.antt =====
-- A network of four validators, with keys 1 to 4 for their addresses, at height 5: the data of the
-- tests. A hash is the number of bytes, a signature the key, and floats are whole.
pub mod Forked
pub mod AgreementExamples
pub mod Examples
pub mod StoreExamples
pub mod VoteExamples
pub mod CodecExamples
pub mod DriverExamples
pub mod SyncExamples
pub mod LogjamExamples
pub mod ContractExamples
use rbft.Base.{ℕ, ◌+◌, ◌*◌, ◌^◌, List, [], ◌∷◌, Option, none, some, Bool, true, length}
use rbft.Types.{
  Address, Signature, BlockHeader, Block, SignedNewBlock, SignedPrepare, Prepare, Proposal,
  RoundChange, QbftMessage, prepare, commit, round_change,
}
use rbft.Env.{Env}
use rbft.Chain.{Blockchain}
use rbft.Config.{Configuration}
use rbft.State.{NodeState}
use rbft.State

instance abbrev pub test_env : Env
test_env = record {
  keccak256 = λ bytes. length bytes;
  encode_header = λ h. h.height ∷ h.round_number ∷ [];
  encode_proposal = λ u. u.height ∷ u.round ∷ u.digest ∷ [];
  encode_prepare = λ u. u.height ∷ u.round ∷ u.digest ∷ [];
  encode_commit = λ u. u.height ∷ u.round ∷ u.digest ∷ [];
  encode_new_block = λ u. u.height ∷ u.round ∷ u.digest ∷ [];
  encode_round_change = λ u. u.height ∷ u.round ∷ [];
  hash_bytes = λ h. h ∷ [];
  signer_address = λ k. some k;
  sign_message_sync = λ k m. k;
  recover_address = λ s m. some s;
  f64_add = λ a b. a + b;
  f64_mul = λ a b. a * b;
  f64_pow2 = λ n. 2 ^ n;
  f64_of_u64 = λ n. n;
  f64_ceil_u64 = λ n. n;
  sign_recovers = λ k m a e. e;
}

abbrev pub members : List Address
members = 1 ∷ 2 ∷ 3 ∷ 4 ∷ []

abbrev pub signed : Address → Signature
signed a = record { author = a; signature = a }

abbrev pub block_of : ℕ → ℕ → Address → List Signature → Block
block_of height round leader seals = record {
  header = record {
    proposer = leader;
    round_number = round;
    commit_seals = seals;
    height = height;
    timestamp = 100 + height;
    validators = members;
    digest = 0;
  };
  body = [];
  transactions = [];
}

abbrev pub test_chain : Blockchain
test_chain = record {
  proposed_block = none;
  head = block_of 4 0 1 [];
  older = block_of 3 0 4 [] ∷ [];
}

abbrev pub test_config : Configuration
test_config = record {
  nodes = members;
  genesis_block = block_of 0 0 1 [];
  block_time = 1;
  round_change_config = record {
    start_time = 0;
    first_interval = 1;
    growth_factor = 1;
    max_round = 10;
    round_change_on_first_block = true;
  };
}

-- The node with key 2, which leads round 0 of height 5.
abbrev pub start : NodeState
start = State.new test_chain test_config 2 (some 2) 104

abbrev pub new_block_by : List Signature → SignedNewBlock
new_block_by seals = record {
  unsigned_payload = record { height = 5; round = 0; digest = 2 };
  signature = signed 2;
  block = block_of 5 0 2 seals;
}

abbrev pub block_a : SignedNewBlock
block_a = new_block_by (signed 1 ∷ signed 2 ∷ signed 3 ∷ [])

abbrev pub block_b : SignedNewBlock
block_b = new_block_by (signed 2 ∷ signed 3 ∷ signed 4 ∷ [])

abbrev pub prepare_in : ℕ → Address → QbftMessage
prepare_in round a = prepare (record {
  prepare_payload = record {
    unsigned_payload = record { height = 5; round = round; digest = 2 };
    signature = signed a;
  };
})

abbrev pub round_change_to : ℕ → Address → QbftMessage
round_change_to round a = round_change (record {
  round_change_payload = record {
    unsigned_payload = record {
      height = 5;
      round = round;
      prepared_value = none;
      prepared_round = none;
    };
    signature = signed a;
  };
  round_change_justification = [];
  proposed_block_for_next_round = none;
})

abbrev pub test_proposal : Proposal
test_proposal = record {
  proposal_payload = record {
    unsigned_payload = record { height = 5; round = 0; digest = 2 };
    signature = signed 2;
  };
  proposed_block = block_of 5 0 2 [];
  proposal_justification = [];
  round_change_justification = [];
}

abbrev pub commit_with : Signature → Address → QbftMessage
commit_with seal a = commit (record {
  commit_payload = record {
    unsigned_payload = record { height = 5; round = 0; commit_seal = seal; digest = 2 };
    signature = signed a;
  };
})

abbrev pub commit_by : Address → QbftMessage
commit_by a = commit_with (signed a) a
