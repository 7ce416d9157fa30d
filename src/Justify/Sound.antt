-- ===== src/Justify/Sound.antt =====
-- What a node knows of a proposal that it accepts.
use rbft.Base.{ℕ, ◌<◌, ◌≡◌, ◌⊎◌, List, Bool, true, false, arith, is_none}
use rbft.Types.{Proposal, Block, SignedRoundChange, SignedPrepare, Address}
use rbft.Env.{Env, digest}
use rbft.Chain.{Blockchain}
use rbft.Chain
use rbft.Message.{proposer, recover_signed_proposal_author}
use rbft.State.{NodeState}
use rbft.Justify.{
  is_valid_proposal, is_proposal_justification, fresh_justification, prepared_justification,
  round_acceptable,
}

module _ ⦃env : Env⦄ where
  fresh-height :
      (h r : ℕ) (b : Block) (p : Block → Bool) (l : Address)
      → fresh_justification h r b p l ≡ true
      → b.header.height ≡ h
  unfolding fresh_justification
  fresh-height h r b p l e = ground arith

  prepared-height :
      (rcs : List SignedRoundChange) (ps : List SignedPrepare) (bs : List Block) (h : ℕ) (b : Block)
      (vs : List Address) (bc : Blockchain) (r : ℕ)
      → prepared_justification rcs ps bs h b vs bc r ≡ true
      → b.header.height ≡ h
  unfolding prepared_justification
  prepared-height rcs ps bs h b vs bc r e = ground arith

  pub justified-height :
      (rcs : List SignedRoundChange) (ps : List SignedPrepare) (bs : List Block) (h r : ℕ)
      (b : Block) (p : Block → Bool) (l : Address) (vs : List Address) (bc : Blockchain)
      → is_proposal_justification rcs ps bs h r b p l vs bc ≡ true
      → b.header.height ≡ h
  unfolding is_proposal_justification
  justified-height rcs ps bs h r b p l vs bc e = grind (arith, fresh-height, prepared-height)

  -- What a node knows of a proposal besides its justification.
  pub record IsProposed (p : Proposal) (s : NodeState) : Type 0 where
    pub at_height : p.proposal_payload.unsigned_payload.height ≡ Chain.height s.blockchain
    pub block_height : p.proposed_block.header.height ≡ Chain.height s.blockchain
    pub by_leader :
        recover_signed_proposal_author p.proposal_payload
        ≡ proposer p.proposal_payload.unsigned_payload.round s.blockchain
    pub of_block : p.proposal_payload.unsigned_payload.digest ≡ digest p.proposed_block
    pub in_round :
        ((is_none s.proposal_accepted_for_current_round ≡ true)
          × (p.proposal_payload.unsigned_payload.round ≡ s.round))
        ⊎ ((is_none s.proposal_accepted_for_current_round ≡ false)
            × (s.round < p.proposal_payload.unsigned_payload.round))

  -- A proposal that `is_valid_proposal` accepts is for the current height, as its block is; its
  -- signature claims the leader of its round; its digest is its block's; and its round is the current
  -- one, or a later one if a proposal is already accepted.
  pub is_valid_proposal-IsProposed :
      (p : Proposal) (s : NodeState) → is_valid_proposal p s ≡ true → IsProposed p s
  unfolding is_valid_proposal round_acceptable
  is_valid_proposal-IsProposed p s e = grind (arith, justified-height)
