-- ===== src/Types.antt =====
-- crates/rbft/src/types.rs and types/qbft_message.rs: blocks and messages.
-- An address, a hash, a key and the 65 bytes of a signature are numbers (their big-endian value,
-- which has the order of the byte arrays); bodies and transactions are lists of bytes.
use rbft.Base.{ℕ, List, Option}

abbrev pub Address : Type 0
Address = ℕ

abbrev pub Hash : Type 0
Hash = ℕ

abbrev pub PrivateKey : Type 0
PrivateKey = ℕ

abbrev pub Bytes : Type 0
Bytes = List ℕ

-- `Address::ZERO`.
abbrev pub address_zero : Address
address_zero = 0

pub record Signature : Type 0 where
  pub author : Address
  pub signature : ℕ

pub record BlockHeader : Type 0 where
  pub proposer : Address
  pub round_number : ℕ
  pub commit_seals : List Signature
  pub height : ℕ
  pub timestamp : ℕ
  pub validators : List Address
  pub digest : Hash

pub record Block : Type 0 where
  pub header : BlockHeader
  pub body : Bytes
  pub transactions : List Bytes

pub record UnsignedProposal : Type 0 where
  pub height : ℕ
  pub round : ℕ
  pub digest : Hash

pub record UnsignedPrepare : Type 0 where
  pub height : ℕ
  pub round : ℕ
  pub digest : Hash

pub record UnsignedCommit : Type 0 where
  pub height : ℕ
  pub round : ℕ
  pub commit_seal : Signature
  pub digest : Hash

pub record UnsignedNewBlock : Type 0 where
  pub height : ℕ
  pub round : ℕ
  pub digest : Hash

pub record UnsignedRoundChange : Type 0 where
  pub height : ℕ
  pub round : ℕ
  pub prepared_value : Option Hash
  pub prepared_round : Option ℕ

pub record SignedProposal : Type 0 where
  pub unsigned_payload : UnsignedProposal
  pub signature : Signature

pub record SignedPrepare : Type 0 where
  pub unsigned_payload : UnsignedPrepare
  pub signature : Signature

pub record SignedCommit : Type 0 where
  pub unsigned_payload : UnsignedCommit
  pub signature : Signature

pub record SignedNewBlock : Type 0 where
  pub unsigned_payload : UnsignedNewBlock
  pub signature : Signature
  pub block : Block

pub record SignedRoundChange : Type 0 where
  pub unsigned_payload : UnsignedRoundChange
  pub signature : Signature

pub record BlockRequest : Type 0 where
  pub from_height : ℕ
  pub to_height : ℕ

pub record BlockResponse : Type 0 where
  pub blocks : List SignedNewBlock

pub record Proposal : Type 0 where
  pub proposal_payload : SignedProposal
  pub proposed_block : Block
  pub proposal_justification : List SignedRoundChange
  pub round_change_justification : List SignedPrepare

pub record Prepare : Type 0 where
  pub prepare_payload : SignedPrepare

pub record Commit : Type 0 where
  pub commit_payload : SignedCommit

pub record RoundChange : Type 0 where
  pub round_change_payload : SignedRoundChange
  pub round_change_justification : List SignedPrepare
  pub proposed_block_for_next_round : Option Block

pub data QbftMessage : Type 0 where
  proposal : Proposal → QbftMessage
  prepare : Prepare → QbftMessage
  commit : Commit → QbftMessage
  round_change : RoundChange → QbftMessage
  new_block : SignedNewBlock → QbftMessage
  block_request : BlockRequest → QbftMessage
  block_response : BlockResponse → QbftMessage

pub record QbftMessageWithRecipient : Type 0 where
  pub message : QbftMessage
  pub recipient : Address

-- `ProposalJustification`: what a leader collected for a round.
pub record ProposalJustification : Type 0 where
  pub round : ℕ
  pub round_changes : List RoundChange
  pub prepares : List Prepare
  pub block : Block
