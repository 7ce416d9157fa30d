-- ===== src/Driver/Commit.antt =====
-- The commit of the model's head to the execution layer, and the reload of the model from it:
-- `commit_block_to_reth_blockchain` of crates/rbft-node/src/rbft_consensus.rs.
use rbft.Base.{ℕ, ◌/◌, List, [], ◌∷◌, Option, none, some, if◌then◌else◌, is_some}
use rbft.Types.{Address, Bytes, Block, address_zero}
use rbft.Env.{Env, block_new}
use rbft.Config.{Configuration}
use rbft.State.{NodeState, add_messages, insert_message_sorted}
use rbft.State
use rbft.Driver.Contract.{ChainConfig}
use rbft.Driver.Reth.{Reth, SealedBlock}
use rbft.Driver.Sync.{World}

-- What a tick has besides the states: an argument of the program, the cached configuration with the
-- height it was read for, and the clocks, `now` being read again where the chain is reloaded.
pub record Turn : Type 0 where
  pub debug_catchup_block : Option ℕ
  pub cached_config : ChainConfig
  pub cached_config_height : ℕ
  pub time_ms : ℕ
  pub time : ℕ
  pub reload_time : ℕ

-- `first().copied().unwrap_or_default()`.
abbrev first_or_zero : List Address → Address
first_or_zero [] = address_zero
first_or_zero (a ∷ _) = a

abbrev pub state_or : NodeState → Option NodeState → NodeState
state_or s none = s
state_or s (some t) = t

module _ ⦃env : Env⦄ ⦃reth : Reth⦄ where
  -- The model of the execution layer's best block.
  abbrev pub block_from_chain : ChainConfig → ℕ → SealedBlock → Block
  block_from_chain config number sealed =
      let body = reth.encode_sealed sealed in
      block_new
        (record {
          proposer = first_or_zero config.selected_validators;
          round_number = 0;
          commit_seals = [];
          height = number;
          timestamp = sealed.timestamp;
          validators = config.selected_validators;
          digest = sealed.hash;
        })
        body

  abbrev pub configured : ChainConfig → Configuration → Configuration
  configured config c = record c {
    nodes = config.all_validators;
    block_time = config.block_interval_ms / 1000;
  }

  abbrev pub state_over : ChainConfig → ℕ → NodeState → Block → NodeState
  state_over config now s b =
      State.new (record { proposed_block = none; head = b; older = [] })
        (configured config s.configuration) s.id s.private_key now

  abbrev pub rebuild_over : ChainConfig → ℕ → World → Option SealedBlock → Option NodeState
  rebuild_over config now (r, s) none = none
  rebuild_over config now (r, s) (some sealed) =
      if is_some (reth.decode_sealed (reth.encode_sealed sealed))
      then some
          (state_over config now s (block_from_chain config (reth.best_block_number r) sealed))
      else none

  -- A new state of the node over the best block alone; none is an error.
  unfoldable pub rebuild_node_state_from_chain : ChainConfig → ℕ → World → Option NodeState
  rebuild_node_state_from_chain config now w =
      rebuild_over config now w (reth.block w.0 (reth.best_block_number w.0))

  abbrev pub commit_decoded : Turn → World → Option (SealedBlock × Bytes) → World
  commit_decoded turn w none = w
  commit_decoded turn (r, s) (some (sealed, rest)) =
      let (r', valid) = reth.new_payload r sealed in
      if valid then ((reth.fork_choice_updated r' sealed.hash).0, s) else (
        r',
        state_or s (rebuild_node_state_from_chain turn.cached_config turn.reload_time (r', s)),
      )

  -- The model's head becomes the execution layer's tip, or the model is reloaded from that.
  unfoldable pub commit_block_to_reth_blockchain : Turn → World → World
  commit_block_to_reth_blockchain turn w =
      commit_decoded turn w (reth.decode_sealed w.1.blockchain.head.body)
