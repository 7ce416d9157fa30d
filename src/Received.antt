-- ===== src/Received.antt =====
-- `has_received_proposal_justification` of crates/rbft/src/node_auxilliary_functions.rs: the leader of
-- a round looks for a block that the round changes it has received justify.
pub mod Found
use rbft.Base.{
  ℕ, List, [], ◌∷◌, ◌++◌, Option, none, some, Bool, ◌&&◌, ◌==◌, if◌then◌else◌, map, keep,
  filter_map, max,
}
use rbft.Types.{Block, RoundChange, Prepare, SignedPrepare, ProposalJustification}
use rbft.Env.{Env}
use rbft.Chain
use rbft.BlockOrder.{sort, dedup}
use rbft.Message.{proposer}
use rbft.Message
use rbft.State.{NodeState, messages_received, get_new_block}
use rbft.Changes.{
  extract_signed_prepares, extract_signed_round_changes, valid_round_changes, valid_prepares,
}
use rbft.Justify.{is_proposal_justification, validate_non_prepared_block, round_acceptable}

-- Drops each number that equals the one before it.
dedup_numbers_from : ℕ → List ℕ → List ℕ
dedup_numbers_from prev [] = []
dedup_numbers_from prev (x ∷ xs) =
    let rest = dedup_numbers_from x xs in if prev == x then rest else x ∷ rest

unfoldable pub dedup_numbers : List ℕ → List ℕ
unfolding dedup_numbers_from
dedup_numbers [] = []
dedup_numbers (x ∷ xs) = x ∷ dedup_numbers_from x xs

unfoldable pub received_blocks_in_round_changes : List RoundChange → List Block
received_blocks_in_round_changes rcs =
    dedup (sort (filter_map (λ rc. rc.proposed_block_for_next_round) rcs))

-- The prepared round of a round change with a prepared value.
abbrev prepared_round_if : Option ℕ → Option ℕ → Option ℕ
prepared_round_if none r = none
prepared_round_if (some v) r = r

-- `Iterator::max`.
maximum : List ℕ → Option ℕ
maximum [] = none
maximum (x ∷ xs) = let rest = maximum xs in elim rest [ none ↦ some x | some y ↦ some (max x y) ]

unfoldable pub highest_prepared_round : List RoundChange → Option ℕ
unfolding maximum
highest_prepared_round rcs = maximum (
    filter_map
      (λ rc.
        let u = rc.round_change_payload.unsigned_payload in
        prepared_round_if u.prepared_value u.prepared_round)
      rcs)

abbrev prepares_for : NodeState → Option ℕ → List Prepare
prepares_for s none = []
prepares_for s (some r) = valid_prepares s r

-- The prepares that the round changes carry, of this height and of the new round.
unfoldable pub carried_prepares : ℕ → ℕ → List RoundChange → List SignedPrepare
carried_prepares height new_round [] = []
carried_prepares height new_round (rc ∷ rcs) =
    keep (λ p. p.unsigned_payload.height == height && p.unsigned_payload.round == new_round)
      rc.round_change_justification
    ++ carried_prepares height new_round rcs

-- `find` over blocks.
find_block : (Block → Bool) → List Block → Option Block
find_block p [] = none
find_block p (b ∷ bs) = let rest = find_block p bs in if p b then some b else rest

module _ ⦃env : Env⦄ where
  unfoldable pub is_received_proposal_justification :
      List RoundChange → List Prepare → ℕ → Block → NodeState → Bool
  is_received_proposal_justification rcs prepares new_round b s =
      let bc = s.blockchain in
      let height = Chain.height bc in
      is_proposal_justification (extract_signed_round_changes rcs)
        (extract_signed_prepares prepares ++ carried_prepares height new_round rcs)
        (received_blocks_in_round_changes rcs) height new_round b
        (λ b'. validate_non_prepared_block b' bc new_round) (proposer new_round bc)
        (Chain.validators bc) bc
      && round_acceptable s new_round

  -- The first available block that is justified, or the node's own new block if that is.
  candidates : NodeState → ℕ → List RoundChange → List Block
  candidates s new_round rcs =
      received_blocks_in_round_changes rcs
      ++ elim (get_new_block s new_round) [ none ↦ [] | some b ↦ b ∷ [] ]

  justification_at : NodeState → ℕ → Option ProposalJustification
  unfolding candidates find_block
  justification_at s new_round =
      let rcs = valid_round_changes s new_round in
      let prepares = prepares_for s (highest_prepared_round rcs) in
      elim (find_block (λ b. is_received_proposal_justification rcs prepares new_round b s)
        (candidates s new_round rcs)) [
          | none ↦ none
          | some b ↦
              some
                (record { round = new_round; round_changes = rcs; prepares = prepares; block = b })
        ]

  -- The loop over the rounds; those that another node leads are skipped.
  first_justification : NodeState → List ℕ → Option ProposalJustification
  unfolding justification_at
  first_justification s [] = none
  first_justification s (r ∷ rs) =
      let rest = first_justification s rs in
      if proposer r s.blockchain == s.id
      then elim (justification_at s r) [ none ↦ rest | some j ↦ some j ]
      else rest

  unfoldable pub has_received_proposal_justification : NodeState → Option ProposalJustification
  unfolding first_justification
  has_received_proposal_justification s =
      first_justification s
        (dedup_numbers (keep (λ r. round_acceptable s r) (map Message.round (messages_received s))))
