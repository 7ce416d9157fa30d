-- ===== src/Justify/Unlocked.antt =====
-- What the round changes of a proposal say of other blocks: `is_proposal_justification` of
-- crates/rbft/src/node_auxilliary_functions.rs looks for those that name the proposed block.
use rbft.Base.{
  ℕ, suc, ◌≡◌, refl, List, [], ◌∷◌, Option, none, some, Bool, true, false, ◌&&◌, not, leb, arith,
  all, length, ◌==◌,
}
use rbft.Types.{Address, Block, Proposal, SignedRoundChange, SignedPrepare}
use rbft.Env.{Env, digest}
use rbft.Chain.{Blockchain}
use rbft.Chain
use rbft.Message.{proposer, recover_signed_proposal_author}
use rbft.Quorum.{quorum}
use rbft.State.{NodeState}
use rbft.Changes.{valid_round_change, get_set_of_round_change_senders}
use rbft.Justify.{
  prepared_support, highest_supported, fresh_justification, is_proposal_justification,
  validate_non_prepared_block, round_acceptable, add_support, supports,
}

module _ ⦃env : Env⦄ where
  abbrev names_prepared : Blockchain → Block → Option ℕ → Option ℕ → Bool
  names_prepared bc b (some r) (some value) = supports bc b r value
  names_prepared bc b _ _ = false

  -- Does the round change name the block as prepared, in the round that it gives?
  abbrev pub names : Blockchain → Block → SignedRoundChange → Bool
  names bc b rc =
      names_prepared bc b rc.unsigned_payload.prepared_round rc.unsigned_payload.prepared_value

  add_support-none :
      (bc : Blockchain) (b : Block) (r value : Option ℕ) (rc : SignedRoundChange)
      → names_prepared bc b r value ≡ false
      → add_support bc b r value rc [] ≡ []
  unfolding add_support
  add_support-none bc b none value rc n = refl
  add_support-none bc b (some r) none rc n = refl
  add_support-none bc b (some r) (some value) rc n = rw n refl

  prepared_support-none :
      (bc : Blockchain) (b : Block) (rcs : List SignedRoundChange)
      → all (λ rc. not (names bc b rc)) rcs ≡ true
      → prepared_support bc b rcs ≡ []
  unfolding prepared_support
  prepared_support-none bc b [] n = refl
  prepared_support-none bc b (rc ∷ rcs) n =
      let u = rc.unsigned_payload in
      rw (prepared_support-none bc b rcs (ground arith))
        (add_support-none bc b u.prepared_round u.prepared_value rc (ground arith))

  -- In a later round, with round changes of which none names the block as prepared: the block is
  -- justified exactly if they are valid and from a quorum, and the block is a fresh one of this round,
  -- whichever other block they name as prepared.
  pub is_proposal_justification-unlocked :
      (rcs : List SignedRoundChange) (ps : List SignedPrepare) (available : List Block)
      (height r : ℕ) (b : Block) (validate_block : Block → Bool) (leader : Address)
      (vs : List Address) (bc : Blockchain)
      → all (λ rc. not (names bc b rc)) rcs ≡ true
      → is_proposal_justification rcs ps available height (suc r) b validate_block leader vs bc ≡ (
          leb (quorum (length vs)) (length (get_set_of_round_change_senders rcs))
          && all (λ m. valid_round_change m height (suc r) vs) rcs
          && fresh_justification height (suc r) b validate_block leader)
  unfolding is_proposal_justification highest_supported
  is_proposal_justification-unlocked rcs ps available height r b validate_block leader vs bc n =
      rw (prepared_support-none bc b rcs n) (ground arith)

  -- The test of a proposal for a round after 0 that does not look at what its round changes have
  -- prepared, nor at what the node has: the height, the author, the number of senders, the validity of
  -- each round change, a fresh block of the round, the digest, and the round of the node.
  unfoldable pub is_valid_as_fresh : Proposal → NodeState → Bool
  is_valid_as_fresh p s =
      let u = p.proposal_payload.unsigned_payload in
      let bc = s.blockchain in
      let rcs = p.proposal_justification in
      u.height == Chain.height bc
      && recover_signed_proposal_author p.proposal_payload == proposer u.round bc
      && leb (quorum (length (Chain.validators bc))) (length (get_set_of_round_change_senders rcs))
      && all (λ m. valid_round_change m (Chain.height bc) u.round (Chain.validators bc)) rcs
      && fresh_justification (Chain.height bc) u.round p.proposed_block
          (λ b. validate_non_prepared_block b bc u.round) (proposer u.round bc)
      && u.digest == digest p.proposed_block
      && round_acceptable s u.round
