-- ===== src/Received/Found.antt =====
-- What a leader knows of the justification that it has found.
use rbft.Base.{
  ℕ, ◌≡◌, ◌<◌, ◌⊎◌, List, [], ◌∷◌, some, Bool, true, false, arith, Option-cases, Bool-cases, inl,
  inr, ◌==◌, is_none, ==→eq, subst, sym,
}
use rbft.Types.{Block, ProposalJustification}
use rbft.Env.{Env}
use rbft.Chain
use rbft.Message.{proposer}
use rbft.State.{NodeState}
use rbft.Changes.{valid_round_changes}
use rbft.Justify.{round_acceptable}
use rbft.Justify.Sound.{justified-height}
use rbft.Received.{
  is_received_proposal_justification, find_block, candidates, justification_at, first_justification,
  has_received_proposal_justification, highest_prepared_round, prepares_for,
}

find_block-passes :
    (p : Block → Bool) (bs : List Block) (b : Block) → find_block p bs ≡ some b → p b ≡ true
unfolding find_block
find_block-passes p [] b e = cc
find_block-passes p (x ∷ bs) b e = elim (Bool-cases (p x)) [
  | inl t ↦ ground arith
  | inr t ↦ find_block-passes p bs b (ground arith)
]

module _ ⦃env : Env⦄ where
  -- What a leader relies on when it proposes.
  pub record IsFound (s : NodeState) (j : ProposalJustification) : Type 0 where
    pub leads : proposer j.round s.blockchain ≡ s.id
    pub round_changes : j.round_changes ≡ valid_round_changes s j.round
    pub justified :
        is_received_proposal_justification j.round_changes j.prepares j.round j.block s ≡ true
    pub in_round :
        ((is_none s.proposal_accepted_for_current_round ≡ true) × (j.round ≡ s.round))
        ⊎ ((is_none s.proposal_accepted_for_current_round ≡ false) × (s.round < j.round))
    pub block_height : j.block.header.height ≡ Chain.height s.blockchain

  justification_at-justified :
      (s : NodeState) (r : ℕ) (j : ProposalJustification)
      → justification_at s r ≡ some j
      → (j.round ≡ r)
        × (j.round_changes ≡ valid_round_changes s r)
        × (is_received_proposal_justification j.round_changes j.prepares r j.block s ≡ true)
  unfolding justification_at
  justification_at-justified s r j e =
      let rcs = valid_round_changes s r in
      let ps = prepares_for s (highest_prepared_round rcs) in
      let p = λ (b : Block). is_received_proposal_justification rcs ps r b s in
      elim (Option-cases (find_block p (candidates s r rcs))) [
        | inl n ↦ ground arith
        | inr (b, n) ↦ ground (arith, find_block-passes p (candidates s r rcs) b n)
      ]

  received-facts :
      (s : NodeState) (j : ProposalJustification)
      → is_received_proposal_justification j.round_changes j.prepares j.round j.block s ≡ true
      → (j.block.header.height ≡ Chain.height s.blockchain) × (round_acceptable s j.round ≡ true)
  unfolding is_received_proposal_justification
  received-facts s j e = grind (arith, justified-height)

  IsFound-at :
      (s : NodeState) (r : ℕ) (j : ProposalJustification)
      → proposer r s.blockchain ≡ s.id
      → justification_at s r ≡ some j
      → IsFound s j
  unfolding round_acceptable
  IsFound-at s r j l e =
      let (er, ercs, ok_j) = justification_at-justified s r j e in
      let justified =
        subst
          (λ n. is_received_proposal_justification j.round_changes j.prepares n j.block s ≡ true)
          (sym er) ok_j in
      let facts = received-facts s j justified in
      record {
        leads = rw er l;
        round_changes = rw er ercs;
        justified = justified;
        in_round = ground (arith, facts.1);
        block_height = facts.0;
      }

  first_justification-IsFound :
      (s : NodeState) (rs : List ℕ) (j : ProposalJustification)
      → first_justification s rs ≡ some j
      → IsFound s j
  unfolding first_justification
  first_justification-IsFound s [] j e = cc
  first_justification-IsFound s (r ∷ rs) j e = elim (Bool-cases (proposer r s.blockchain == s.id)) [
    | inr other ↦ first_justification-IsFound s rs j (ground arith)
    | inl own ↦ elim (Option-cases (justification_at s r)) [
      | inl n ↦ first_justification-IsFound s rs j (ground arith)
      | inr (i, n) ↦ IsFound-at s r j (==→eq _ _ own) (ground arith)
    ]
  ]

  -- A justification that `has_received_proposal_justification` finds is for a round that the node leads
  -- and may propose in, carries the valid round changes received for that round, justifies its block,
  -- and the block is of the current height.
  pub has_received-IsFound :
      (s : NodeState) (j : ProposalJustification)
      → has_received_proposal_justification s ≡ some j
      → IsFound s j
  unfolding has_received_proposal_justification
  has_received-IsFound s j e = first_justification-IsFound s _ j e
