-- ===== src/Driver/Advance.antt =====
-- `advance` of crates/rbft-node/src/rbft_consensus.rs: one tick of a node, from the messages that have
-- come in to those that go out, over the consensus core and the execution layer. The sending and the
-- express delivery of transactions stand apart, in Driver/Outgoing and Driver/Express.
pub mod Offered
pub mod Total
pub mod InStep
pub mod Held
pub mod Synced
use rbft.Base.{
  ℕ, ◌+◌, ◌-◌, ◌/◌, List, [], ◌∷◌, ◌++◌, map, filter_map, Option, none, some, Bool, true, false,
  ◌&&◌, ◌||◌, not, ◌==◌, ltb, leb, if◌then◌else◌, u64, Exec, ok, panic, ◌>>=◌, is_some, max,
}
use rbft.Types.{
  Address, Bytes, Block, BlockRequest, BlockResponse, QbftMessage, QbftMessageWithRecipient,
  block_request, block_response, address_zero,
}
use rbft.Env.{Env, block_new}
use rbft.Config.{Configuration}
use rbft.Chain.{Blockchain}
use rbft.Chain
use rbft.State.{NodeState, add_messages, insert_message_sorted}
use rbft.State
use rbft.Checks.{whoami, proposed_height}
use rbft.Node.{node_next}
use rbft.Driver.Contract.{ChainConfig, get_on_chain_config}
use rbft.Driver.Reth.{Reth, SealedBlock}
use rbft.Driver.Sync.{
  World, handle_block_request, handle_block_response, Incoming, gather, highest_newblock_message,
  catch_up_request,
}
use rbft.Driver.Commit.{Turn, commit_block_to_reth_blockchain}
use rbft.Driver.Screening.{RawRlp, validate_proposal_with_validator}

abbrev pub answers_with : Option BlockResponse → List BlockResponse → List BlockResponse
answers_with none answers = answers
answers_with (some a) answers = a ∷ answers

-- Whether the tick goes on to consensus.
unfoldable pub is_enabled : Option ℕ → ℕ → NodeState → ℕ → Bool
is_enabled none who s highest = true
is_enabled (some threshold) who s highest =
    not (who == 0) || leb threshold (Chain.height s.blockchain) || leb threshold highest

-- Whether it is time to have a block to propose, and there is none for this height yet.
unfoldable pub is_due : Turn → ℕ → NodeState → Bool
is_due turn node_height s =
    let interval = turn.cached_config.block_interval_ms in
    leb (Chain.estimate_timestamp_ms s.blockchain interval + interval) turn.time_ms
    && ltb (proposed_height s) node_height

-- The block becomes the one to propose; none where `advance` returns early: there is no block, or
-- it is of another height.
unfoldable pub offer_block : NodeState → ℕ → Option Block → Option NodeState
offer_block s node_height none = none
offer_block s node_height (some b) =
    if b.header.height == node_height
    then some (record s { blockchain = Chain.set_proposed_block s.blockchain (some b) })
    else none

-- The messages of this node to itself.
unfoldable pub push_messages : NodeState → List QbftMessageWithRecipient → NodeState
push_messages s [] = s
push_messages s (m ∷ ms) = push_messages (insert_message_sorted s m.message) ms

module _ ⦃env : Env⦄ ⦃reth : Reth⦄ where
  -- The model of a block that was built.
  abbrev pub proposed_block_of : ChainConfig → NodeState → SealedBlock → Block
  proposed_block_of config s sealed =
      let body = reth.encode_sealed sealed in
      block_new
        (record {
          proposer = s.id;
          round_number = 0;
          commit_seals = [];
          height = sealed.number;
          timestamp = sealed.timestamp;
          validators = config.selected_validators;
          digest = env.keccak256 body;
        })
        body

  -- The two assertions on a block that was built: its beneficiary is this node, and it decodes again.
  abbrev pub asserted_block :
      ChainConfig → World → Option SealedBlock → Exec (reth.State × Option Block)
  asserted_block config (r, s) none = ok (r, none)
  asserted_block config (r, s) (some sealed) =
      if sealed.beneficiary == s.id && is_some (reth.decode_sealed (reth.encode_sealed sealed))
      then ok (r, some (proposed_block_of config s sealed))
      else panic

  abbrev pub next_time : ChainConfig → NodeState → ℕ
  next_time config s =
      let interval = config.block_interval_ms in
      u64 ((Chain.estimate_timestamp_ms s.blockchain interval + interval) / 1000)

  abbrev pub build_on : ChainConfig → World → Option SealedBlock → Exec (reth.State × Option Block)
  build_on config (r, s) none = ok (r, none)
  build_on config (r, s) (some latest) =
      let (r', built) = reth.build_payload r latest (next_time config s) s.id in
      asserted_block config (r', s) built

  unfoldable pub get_proposed_block : ChainConfig → World → Exec (reth.State × Option Block)
  get_proposed_block config w = build_on config w (reth.block w.0 (reth.best_block_number w.0))

  -- The part of `advance` before the messages are added: none where it returns early.
  unfoldable pub prepare_proposal : ℕ → Turn → World → Exec (reth.State × Option NodeState)
  prepare_proposal node_height turn w =
      if is_due turn node_height w.1
      then (get_proposed_block turn.cached_config w >>= λ built.
          ok (built.0, offer_block w.1 node_height built.1))
      else ok (w.0, some w.1)

  -- A model that is ahead of the execution layer is committed to it.
  abbrev pub settle : ℕ → Turn → World → World
  settle node_height turn w =
      if ltb node_height (Chain.height w.1.blockchain)
      then commit_block_to_reth_blockchain turn w
      else w

  abbrev pub step_on :
      ℕ
      → Turn
      → reth.State
      → List QbftMessage
      → Option NodeState
      → NodeState
      → Exec (World × List QbftMessageWithRecipient)
  step_on node_height turn r incoming none s = ok ((r, s), [])
  step_on node_height turn r incoming (some t) s = do
    stepped ← node_next (add_messages t incoming turn.time) turn.time
    ok (settle node_height turn (r, push_messages stepped.0 stepped.1), stepped.1)

  -- From the proposal to the commit.
  unfoldable pub advance_consensus :
      ℕ → Turn → World → List QbftMessage → Exec (World × List QbftMessageWithRecipient)
  advance_consensus node_height turn w incoming = do
    prepared ← prepare_proposal node_height turn w
    step_on node_height turn prepared.0 incoming prepared.1 w.1

  unfoldable pub handle_block_responses : World → List BlockResponse → World
  handle_block_responses w [] = w
  handle_block_responses w (a ∷ others) =
      handle_block_responses (handle_block_response w a).0 others

  abbrev pub requests_of : Option BlockRequest → List QbftMessage
  requests_of none = []
  requests_of (some q) = block_request q ∷ []

  -- The configuration is read again where the height is another than that it was read for, from the
  -- best block, or from block 1.
  unfoldable pub refresh_config : ℕ → reth.State → Turn → Exec Turn
  refresh_config node_height r turn =
      if turn.cached_config_height == node_height
      then ok turn
      else (get_on_chain_config (reth.provider r) (max (node_height - 1) 1) >>= λ config.
          ok (record turn { cached_config = config; cached_config_height = node_height }))

  -- The answers to the requests, in order.
  unfoldable pub answer_each : reth.State → List BlockRequest → Exec (List BlockResponse)
  answer_each r [] = ok []
  answer_each r (q ∷ qs) = do
    answer ← handle_block_request r q
    answers ← answer_each r qs
    ok (answers_with answer answers)

  -- The rest of the tick, with what is sent before consensus.
  abbrev pub advance_with :
      ℕ → Turn → World → Incoming → List BlockResponse → Exec (World × List QbftMessage × Turn)
  advance_with node_height turn w come answers =
      let v = handle_block_responses w come.block_responses in
      let first =
        map block_response answers
        ++ requests_of (catch_up_request node_height come.incoming_messages) in
      let highest = highest_newblock_message come.incoming_messages in
      if is_enabled turn.debug_catchup_block (whoami w.1) v.1 highest
      then (advance_consensus node_height turn v come.incoming_messages >>= λ done.
          ok (done.0, first ++ map (λ m. m.message) done.1, turn))
      else ok (v, first, turn)

  module _ ⦃raw : RawRlp⦄ where
    -- The tick: the states after it, the messages for all peers, in order, and the cached configuration.
    unfoldable pub advance :
        Turn → World → List QbftMessage → Exec (World × List QbftMessage × Turn)
    advance turn w messages =
        let node_height = u64 (reth.best_block_number w.0 + 1) in
        let come = gather validate_proposal_with_validator messages in
        refresh_config node_height w.0 turn >>= λ fresh.
        answer_each w.0 come.block_requests >>= λ answers.
        advance_with node_height fresh w come answers
