-- ===== src/Driver/Reth.antt =====
-- The execution layer that the driver of crates/rbft-node calls: reth's provider and its engine,
-- with a state of their own. What they do with a block is a parameter.
use rbft.Base.{ℕ, Option, Bool}
use rbft.Types.{Address, Hash, Bytes}
use rbft.Driver.Contract.{Provider}

-- The header fields of a `SealedBlock` that are read, and the block itself, a number.
pub record SealedBlock : Type 0 where
  pub number : ℕ
  pub timestamp : ℕ
  pub beneficiary : Address
  pub hash : Hash
  pub content : ℕ

pub record Reth : Type 1 where
  pub State : Type 0
  -- `best_block_number().unwrap_or(0)`.
  pub best_block_number : State → ℕ
  -- `block(height).ok().flatten()`.
  pub block : State → ℕ → Option SealedBlock
  pub encode_sealed : SealedBlock → Bytes
  pub decode_sealed : Bytes → Option (SealedBlock × Bytes)
  -- The provider, as the reading of the on-chain configuration sees it.
  pub provider : State → Provider
  -- The new state, and whether the payload is valid.
  pub new_payload : State → SealedBlock → State × Bool
  -- The new state, and whether the answer is valid; else it is invalid, or an error.
  pub fork_choice_updated : State → Hash → State × Bool
  pub validate_header : SealedBlock → Bool
  -- The payload that a fork choice update over a header starts to build, with the time and the fee
  -- recipient given and a `prev_randao` of the header's; none if either call fails.
  pub build_payload : State → SealedBlock → ℕ → Address → State × Option SealedBlock
