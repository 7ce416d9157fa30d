-- ===== src/Seals.antt =====
-- `valid_new_block` of crates/rbft/src/node_auxilliary_functions.rs: the seals that a block needs
-- before a node adopts it.
pub mod Safety
use rbft.Base.{List, Bool, false, ◌&&◌, ◌==◌, leb, map, all, contains, distinct, length}
use rbft.Types.{Address, Hash, Signature, SignedNewBlock, QbftMessage, new_block}
use rbft.Env.{Env, digest, validate_digest, verify_message}
use rbft.Chain.{Blockchain}
use rbft.Chain
use rbft.Quorum.{quorum}
use rbft.Sign.{hash_block_for_commit_seal}
use rbft.State.{unwrap_or_false}

abbrev pub seal_authors : List Signature → List Address
seal_authors = map λ s. s.author

module _ ⦃env : Env⦄ where
  -- The seal is of a validator, and of this hash.
  unfoldable pub seal_ok : List Address → Hash → Signature → Bool
  seal_ok validators hash s =
      contains validators s.author && unwrap_or_false (verify_message s (env.hash_bytes hash))

  unfoldable pub valid_new_block : Blockchain → SignedNewBlock → Bool
  valid_new_block bc b =
      let h = b.block.header in
      let vs = Chain.validators bc in
      b.unsigned_payload.height == h.height
      && b.unsigned_payload.round == h.round_number
      && b.unsigned_payload.digest == digest b.block
      && leb (Chain.height bc) h.height
      && validate_digest b.block
      && leb (quorum (length vs)) (length (distinct (seal_authors h.commit_seals)))
      && all (seal_ok vs (hash_block_for_commit_seal b.block)) h.commit_seals

  unfoldable pub valid_new_block_message : Blockchain → QbftMessage → Bool
  valid_new_block_message bc (new_block b) = valid_new_block bc b
  valid_new_block_message bc _ = false
