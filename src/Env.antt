-- ===== src/Env.antt =====
-- What crates/rbft takes from other crates, and types/signature.rs over it.
-- alloy_primitives gives keccak256 and the recovery of a signer, alloy_rlp the encodings that its
-- derive macros write, alloy_signer_local the signing; the f64 arithmetic of the timeouts is std's,
-- a float being a number for its bits.
use rbft.Base.{ℕ, ◌≡◌, [], Option, none, some, Bool, Exec, ok, ◌>>=◌, expect, ◌==◌}
use rbft.Types.{
  Address, Hash, PrivateKey, Bytes, Signature, BlockHeader, Block, UnsignedProposal,
  UnsignedPrepare, UnsignedCommit, UnsignedNewBlock, UnsignedRoundChange,
}

pub record Env : Type 0 where
  pub keccak256 : Bytes → Hash
  pub encode_header : BlockHeader → Bytes
  pub encode_proposal : UnsignedProposal → Bytes
  pub encode_prepare : UnsignedPrepare → Bytes
  pub encode_commit : UnsignedCommit → Bytes
  pub encode_new_block : UnsignedNewBlock → Bytes
  pub encode_round_change : UnsignedRoundChange → Bytes
  pub hash_bytes : Hash → Bytes
  -- `PrivateKeySigner::from_bytes` and `address`: none for a number that is no key.
  pub signer_address : PrivateKey → Option Address
  pub sign_message_sync : PrivateKey → Bytes → ℕ
  -- `Signature::try_from` and `recover_address_from_msg`: none where either fails.
  pub recover_address : ℕ → Bytes → Option Address
  -- `start + first * 2_f64.powf(growth * round as f64)`, then `ceil() as u64`.
  pub f64_add : ℕ → ℕ → ℕ
  pub f64_mul : ℕ → ℕ → ℕ
  pub f64_pow2 : ℕ → ℕ
  pub f64_of_u64 : ℕ → ℕ
  pub f64_ceil_u64 : ℕ → ℕ
  -- A signature gives back the signer's address.
  pub sign_recovers :
      (k : PrivateKey) (m : Bytes) (a : Address)
      → signer_address k ≡ some a
      → recover_address (sign_message_sync k m) m ≡ some a

module _ ⦃env : Env⦄ where
  -- `Signature::sign_message`.
  unfoldable pub sign_message : Bytes → PrivateKey → Exec Signature
  sign_message bytes key = do
    author_address ← expect (env.signer_address key)
    ok (record { author = author_address; signature = env.sign_message_sync key bytes })

  -- `Signature::verify_message`: none is its error.
  unfoldable pub verify_message : Signature → Bytes → Option Bool
  verify_message s bytes = elim (env.recover_address s.signature bytes) [
    | none ↦ none
    | some recovered ↦ some (recovered == s.author)
  ]

  -- The digest of a header, commit seals included.
  unfoldable pub digest : Block → Hash
  digest b = env.keccak256 (env.encode_header b.header)

  -- `Block::validate_digest`.
  unfoldable pub validate_digest : Block → Bool
  validate_digest b = b.header.digest == env.keccak256 b.body

  -- `Block::new`.
  unfoldable pub block_new : BlockHeader → Bytes → Block
  block_new h body = record {
    header = record h { digest = env.keccak256 body };
    body = body;
    transactions = [];
  }
