-- ===== src/Sign.antt =====
-- The `sign_…` functions of crates/rbft/src/node_auxilliary_functions.rs. Each panics where the node
-- has no private key, or an invalid one.
use rbft.Base.{◌>>=◌, Exec, ok, expect, []}
use rbft.Types.{
  Hash, Signature, Block, UnsignedProposal, UnsignedPrepare, UnsignedCommit, UnsignedNewBlock,
  UnsignedRoundChange, SignedProposal, SignedPrepare, SignedCommit, SignedNewBlock,
  SignedRoundChange, Bytes,
}
use rbft.Env.{Env, sign_message, digest}
use rbft.State.{NodeState}

module _ ⦃env : Env⦄ where
  -- The common part: the key, then the signature.
  unfoldable pub sign_bytes : Bytes → NodeState → Exec Signature
  sign_bytes bytes s = do key ← expect s.private_key; sign_message bytes key

  unfoldable pub sign_proposal : UnsignedProposal → NodeState → Exec SignedProposal
  sign_proposal u s = do
    signature ← sign_bytes (env.encode_proposal u) s
    ok (record { unsigned_payload = u; signature = signature })

  unfoldable pub sign_prepare : UnsignedPrepare → NodeState → Exec SignedPrepare
  sign_prepare u s = do
    signature ← sign_bytes (env.encode_prepare u) s
    ok (record { unsigned_payload = u; signature = signature })

  unfoldable pub sign_commit : UnsignedCommit → NodeState → Exec SignedCommit
  sign_commit u s = do
    signature ← sign_bytes (env.encode_commit u) s
    ok (record { unsigned_payload = u; signature = signature })

  unfoldable pub sign_round_change : UnsignedRoundChange → NodeState → Exec SignedRoundChange
  sign_round_change u s = do
    signature ← sign_bytes (env.encode_round_change u) s
    ok (record { unsigned_payload = u; signature = signature })

  unfoldable pub sign_new_block : Block → NodeState → Exec SignedNewBlock
  sign_new_block b s = do
    let u : UnsignedNewBlock = record {
      height = b.header.height;
      round = b.header.round_number;
      digest = digest b;
    }
    signature ← sign_bytes (env.encode_new_block u) s
    ok (record { unsigned_payload = u; signature = signature; block = b })

  unfoldable pub sign_hash : Hash → NodeState → Exec Signature
  sign_hash h s = sign_bytes (env.hash_bytes h) s

  -- A commit seal signs the header without its seals.
  unfoldable pub hash_block_for_commit_seal : Block → Hash
  hash_block_for_commit_seal b =
      env.keccak256 (env.encode_header (record (b.header) { commit_seals = [] }))
