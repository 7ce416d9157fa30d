-- ===== src/Driver/Sync.antt =====
-- How nodes catch up: `handle_block_request` and `handle_block_response` of
-- crates/rbft-node/src/rbft_consensus.rs, and the part of `advance` that sends a request.
pub mod Answers
pub mod Imports
pub mod CatchUp
use rbft.Base.{
  ℕ, zero, suc, ◌+◌, ◌-◌, List, [], ◌∷◌, Option, none, some, Bool, true, false, not, ◌==◌, ltb, leb,
  if◌then◌else◌, min, max, u64, Exec, ok, panic, ◌>>=◌,
}
use rbft.Types.{
  Block, Signature, SignedNewBlock, BlockRequest, BlockResponse, QbftMessage, Proposal, proposal,
  new_block, block_request, block_response, address_zero, Bytes,
}
use rbft.Env.{Env, block_new}
use rbft.Chain
use rbft.State.{NodeState, new_round, prune_messages_below_height}
use rbft.Driver.Contract.{ChainConfig, get_on_chain_config}
use rbft.Driver.Reth.{Reth, SealedBlock}

-- `Signature::default()`: no author, and zero bytes.
abbrev pub default_signature : Signature
default_signature = record { author = address_zero; signature = 0 }

abbrev pub max_blocks_per_response : ℕ
max_blocks_per_response = 100

-- `None` for no blocks.
abbrev pub respond_with : List SignedNewBlock → Option BlockResponse
respond_with [] = none
respond_with (b ∷ bs) = some (record { blocks = b ∷ bs })

module _ ⦃env : Env⦄ ⦃reth : Reth⦄ where
  -- A block of the provider as a block of the model, with the validators of its height.
  abbrev pub signed_with : ChainConfig → ℕ → SealedBlock → SignedNewBlock
  signed_with config height sealed =
      let body = reth.encode_sealed sealed in
      record {
        unsigned_payload = record { height = height; round = 0; digest = env.keccak256 body };
        signature = default_signature;
        block =
            block_new
              (record {
                proposer = sealed.beneficiary;
                round_number = 0;
                commit_seals = [];
                height = height;
                timestamp = sealed.timestamp;
                validators = config.selected_validators;
                digest = env.keccak256 body;
              })
              body;
      }

  unfoldable pub signed_block_at : reth.State → ℕ → SealedBlock → Exec SignedNewBlock
  signed_block_at r height sealed = do
    config ← get_on_chain_config (reth.provider r) height
    ok (signed_with config height sealed)

  -- The loop over the heights, of which so many are left; it ends at the first block that is missing.
  unfoldable pub collect_blocks : reth.State → ℕ → ℕ → Exec (List SignedNewBlock)
  collect_blocks r height zero = ok []
  collect_blocks r height (suc left) =
      let rest = collect_blocks r (height + 1) left in
      elim (reth.block r height) [
        | none ↦ ok []
        | some sealed ↦ signed_block_at r height sealed >>= λ b. rest >>= λ bs. ok (b ∷ bs)
      ]

  -- The last height to answer with: at most 100 blocks, and none above the best.
  unfoldable pub last_height : reth.State → BlockRequest → ℕ
  last_height r q =
      min
        (min q.to_height (min (q.from_height + (max_blocks_per_response - 1)) 18446744073709551615))
        (reth.best_block_number r)

  unfoldable pub handle_block_request : reth.State → BlockRequest → Exec (Option BlockResponse)
  handle_block_request r q =
      if ltb (reth.best_block_number r) q.from_height
      then ok none
      else (collect_blocks r q.from_height (last_height r q + 1 - q.from_height) >>= λ bs.
          ok (respond_with bs))

-- The model follows the execution layer: a new head, and round 0 over it.
unfoldable pub sync_to : NodeState → Block → NodeState
sync_to s b =
    let t = record s {
      blockchain = Chain.set_proposed_block (Chain.set_head s.blockchain b) none;
    } in
    prune_messages_below_height (new_round t 0 t.local_time none)

module _ ⦃reth : Reth⦄ where
  -- The state of the execution layer and that of the model.
  abbrev pub World : Type 0
  World = reth.State × NodeState

  -- The engine gets the block: refused, or it becomes the tip and the head of the model.
  abbrev pub import_sealed : World → Block → SealedBlock → World × Bool
  import_sealed (r, s) b sealed =
      let (r', valid) = reth.new_payload r sealed in
      if valid
      then (((reth.fork_choice_updated r' sealed.hash).0, sync_to s b), true)
      else ((r', s), false)

  abbrev pub import_decoded : World → Block → Option (SealedBlock × Bytes) → World × Bool
  import_decoded w b none = (w, true)
  import_decoded w b (some (sealed, rest)) = import_sealed w b sealed

  -- One round of the loop: false ends it.
  unfoldable pub import_block : ℕ → World → SignedNewBlock → World × Bool
  import_block node_height w b =
      let h = b.unsigned_payload.height in
      if leb h node_height
      then (w, true)
      else if not (h == u64 (reth.best_block_number w.0 + 1))
      then (w, true)
      else import_decoded w b.block (reth.decode_sealed b.block.body)

  unfoldable pub import_blocks : ℕ → World → List SignedNewBlock → World × Bool
  import_blocks node_height w [] = (w, true)
  import_blocks node_height w (b ∷ bs) =
      let (v, go_on) = import_block node_height w b in
      elim go_on [ true ↦ import_blocks node_height v bs | false ↦ (v, false) ]

  -- No blocks: nothing is done, and the answer is no success.
  abbrev pub import_answer : World → List SignedNewBlock → World × Bool
  import_answer w [] = (w, false)
  import_answer w (b ∷ bs) = import_blocks (reth.best_block_number w.0) w (b ∷ bs)

  unfoldable pub handle_block_response : World → BlockResponse → World × Bool
  handle_block_response w r = import_answer w r.blocks

-- What `advance` makes of the messages that have come in.
pub record Incoming : Type 0 where
  pub block_requests : List BlockRequest
  pub block_responses : List BlockResponse
  pub incoming_messages : List QbftMessage

-- Block requests and responses are kept apart; a proposal must pass the execution layer's check.
unfoldable pub gather : (Proposal → Bool) → List QbftMessage → Incoming
gather is_valid [] = record { block_requests = []; block_responses = []; incoming_messages = [] }
gather is_valid (block_request q ∷ ms) =
    let rest = gather is_valid ms in record rest { block_requests = q ∷ rest.block_requests }
gather is_valid (block_response r ∷ ms) =
    let rest = gather is_valid ms in record rest { block_responses = r ∷ rest.block_responses }
gather is_valid (proposal p ∷ ms) =
    let rest = gather is_valid ms in
    if is_valid p
    then record rest { incoming_messages = proposal p ∷ rest.incoming_messages }
    else rest
gather is_valid (m ∷ ms) =
    let rest = gather is_valid ms in record rest { incoming_messages = m ∷ rest.incoming_messages }

-- The highest height among the new blocks, 0 if there is none.
unfoldable pub highest_newblock_message : List QbftMessage → ℕ
highest_newblock_message [] = 0
highest_newblock_message (new_block b ∷ ms) =
    max b.block.header.height (highest_newblock_message ms)
highest_newblock_message (m ∷ ms) = highest_newblock_message ms

-- The request for the missing blocks, where a new block shows that some are missing.
unfoldable pub catch_up_request : ℕ → List QbftMessage → Option BlockRequest
catch_up_request node_height incoming =
    let current_best = node_height - 1 in
    let highest = highest_newblock_message incoming in
    if ltb (u64 (current_best + 1)) highest
    then some (record { from_height = u64 (current_best + 1); to_height = highest })
    else none
