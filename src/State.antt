-- ===== src/State.antt =====
-- crates/rbft/src/types/node_state.rs: the state of a node and its message store.
-- The setters of single fields are record updates where they are called.
pub mod Order
pub mod Store
pub mod Retained
pub mod Intake
pub mod Rounds
pub mod Index
use rbft.Base.{
  ℕ, ◌+◌, List, [], ◌∷◌, Option, none, some, Bool, false, ◌&&◌, ◌||◌, not, ◌==◌, ltb, leb,
  if◌then◌else◌, u64, take, drop, keep, any, partition_point, is_some,
}
use rbft.Types.{Address, PrivateKey, Block, Proposal, QbftMessage}
use rbft.Env.{Env}
use rbft.Chain.{Blockchain}
use rbft.Chain
use rbft.Config.{Configuration, timeout_for_round}
use rbft.Message.{
  Key, key_ltb, key_eq, components, proposer, check_authors, check_signatures, check_digest,
}
use rbft.Message

pub record NodeState : Type 0 where
  pub blockchain : Blockchain
  pub round : ℕ
  pub local_time : ℕ
  pub id : Address
  pub configuration : Configuration
  pub messages_received : List QbftMessage
  pub proposal_accepted_for_current_round : Option Proposal
  pub last_prepared_block : Option Block
  pub last_prepared_round : Option ℕ
  pub time_last_round_start : ℕ
  pub round_zero_progress_prepares : ℕ
  pub round_zero_progress_commits : ℕ
  pub round_zero_last_progress_time : ℕ
  pub private_key : Option PrivateKey
  pub first_future_message : ℕ
  pub message_keys : List Key

unfoldable pub new : Blockchain → Configuration → Address → Option PrivateKey → ℕ → NodeState
new bc configuration id private_key local_time = record {
  blockchain = bc;
  round = 0;
  local_time = local_time;
  id = id;
  configuration = configuration;
  messages_received = [];
  proposal_accepted_for_current_round = none;
  last_prepared_block = none;
  last_prepared_round = none;
  time_last_round_start = u64 (local_time + configuration.block_time);
  round_zero_progress_prepares = 0;
  round_zero_progress_commits = 0;
  round_zero_last_progress_time = local_time;
  private_key = private_key;
  first_future_message = 0;
  message_keys = [];
}

abbrev pub has_key : List Key → Key → Bool
has_key ks k = any (key_eq k) ks

abbrev pub remove_key : Key → List Key → List Key
remove_key k ks = keep (λ j. not (key_eq k j)) ks

-- `binary_search_by_key`, then `insert` where it points to: before the first key not below.
unfoldable pub insert_sorted : QbftMessage → List QbftMessage → List QbftMessage
insert_sorted m [] = m ∷ []
insert_sorted m (x ∷ xs) =
    if key_ltb (components x) (components m) then x ∷ insert_sorted m xs else m ∷ x ∷ xs

-- Also `push_message`.
unfoldable pub insert_message_sorted : NodeState → QbftMessage → NodeState
insert_message_sorted s m = if has_key s.message_keys (components m) then s else record s {
  messages_received = insert_sorted m s.messages_received;
  message_keys = components m ∷ s.message_keys;
}

unfoldable pub remove_keys : List QbftMessage → List Key → List Key
remove_keys [] ks = ks
remove_keys (m ∷ ms) ks = remove_keys ms (remove_key (components m) ks)

abbrev pub below_height : ℕ → QbftMessage → Bool
below_height h m = ltb (Message.height m) h

abbrev pub up_to_height : ℕ → QbftMessage → Bool
up_to_height h m = leb (Message.height m) h

unfoldable pub prune_messages_below_height : NodeState → NodeState
prune_messages_below_height s =
    let h = Chain.height s.blockchain in
    let first = partition_point (below_height h) s.messages_received in
    let kept = drop first s.messages_received in
    record s {
      messages_received = kept;
      message_keys = remove_keys (take first s.messages_received) s.message_keys;
      first_future_message = partition_point (up_to_height h) kept;
    }

abbrev pub unwrap_or_false : Option Bool → Bool
unwrap_or_false none = false
unwrap_or_false (some b) = b

module _ ⦃env : Env⦄ where
  unfoldable pub accepts : Blockchain → List Address → QbftMessage → Bool
  accepts bc current_validators m =
      check_authors m current_validators
      && unwrap_or_false (check_signatures m bc)
      && check_digest m

  -- One round of the loop of `add_messages`.
  unfoldable pub add_message : List Address → NodeState → QbftMessage → NodeState
  add_message current_validators s m =
      if ltb (Message.height m) (Chain.height s.blockchain)
      then s
      else if has_key s.message_keys (components m)
      then s
      else if accepts s.blockchain current_validators m
      then insert_message_sorted s m
      else s

  unfoldable pub add_each : List Address → List QbftMessage → NodeState → NodeState
  add_each vs [] s = s
  add_each vs (m ∷ ms) s = add_each vs ms (add_message vs s m)

  unfoldable pub add_messages : NodeState → List QbftMessage → ℕ → NodeState
  unfolding add_each
  add_messages s incoming time =
      let t =
        prune_messages_below_height
          (add_each (Chain.validators s.blockchain) incoming (record s { local_time = time })) in
      record t { blockchain = Chain.prune t.blockchain }

  abbrev pub next_round_timeout : NodeState → ℕ
  next_round_timeout s =
      u64 (s.time_last_round_start + timeout_for_round s.configuration.round_change_config s.round)

abbrev pub next_block_timeout : NodeState → ℕ
next_block_timeout s = u64 (s.blockchain.head.header.timestamp + s.configuration.block_time)

-- `&messages_received[0..first_future_message]`.
unfoldable pub messages_received : NodeState → List QbftMessage
messages_received s = take s.first_future_message s.messages_received

unfoldable pub messages_received_at_round : NodeState → ℕ → List QbftMessage
messages_received_at_round s r =
    let lower = partition_point (λ m. ltb (Message.round m) r) (messages_received s) in
    let upper = partition_point (λ m. leb (Message.round m) r) (messages_received s) in
    drop lower (take upper s.messages_received)

abbrev pub replace_round : ℕ → Block → Block
replace_round r b = record b { header = record (b.header) { round_number = r } }

unfoldable pub get_new_block : NodeState → ℕ → Option Block
get_new_block s r = elim s.blockchain.proposed_block [
  | none ↦ none
  | some b ↦ some (replace_round r b)
]

unfoldable pub set_last_prepared_block_and_round : NodeState → Block → ℕ → NodeState
set_last_prepared_block_and_round s b r = record s {
  last_prepared_block = some b;
  last_prepared_round = some r;
}

unfoldable pub new_round : NodeState → ℕ → ℕ → Option Proposal → NodeState
new_round s r start accepted =
    let t = record s {
      round = r;
      proposal_accepted_for_current_round = accepted;
      time_last_round_start = start;
    } in
    if r == 0
    then record t {
      last_prepared_block = none;
      last_prepared_round = none;
      round_zero_progress_prepares = 0;
      round_zero_progress_commits = 0;
      round_zero_last_progress_time = start;
    }
    else t

unfoldable pub update_round_zero_progress : NodeState → ℕ → ℕ → NodeState × Bool
update_round_zero_progress s prepares commits =
    let progressed =
      ltb s.round_zero_progress_prepares prepares || ltb s.round_zero_progress_commits commits in
    if progressed
    then (
      record s {
        round_zero_progress_prepares = prepares;
        round_zero_progress_commits = commits;
        round_zero_last_progress_time = s.local_time;
      },
      progressed,
    )
    else (s, progressed)

unfoldable pub is_the_proposer_for_current_round : NodeState → Bool
is_the_proposer_for_current_round s = proposer s.round s.blockchain == s.id

unfoldable pub next_proposer_for_current_round : NodeState → Address
next_proposer_for_current_round s =
    proposer (if is_some s.proposal_accepted_for_current_round then u64 (s.round + 1) else s.round)
      s.blockchain
