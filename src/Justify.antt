-- ===== src/Justify.antt =====
-- `is_proposal_justification` and `is_valid_proposal` of
-- crates/rbft/src/node_auxilliary_functions.rs.
pub mod Sound
pub mod Unlocked
use rbft.Base.{
  ℕ, ◌+◌, List, [], ◌∷◌, Option, none, some, Bool, true, false, ◌&&◌, ◌||◌, not, ◌==◌, ltb, leb,
  if◌then◌else◌, map, all, any, filter_map, distinct, length, is_none, option_eq, is_empty, max,
}
use rbft.Types.{Address, Block, SignedRoundChange, SignedPrepare, Proposal}
use rbft.Env.{Env, digest}
use rbft.Chain.{Blockchain}
use rbft.Chain
use rbft.Message.{proposer, recover_signed_prepare_author, recover_signed_proposal_author}
use rbft.Quorum.{f, quorum}
use rbft.State.{NodeState}
use rbft.Votes.{valid_signed_prepare_for_height_round_and_digest, prepare_authors}
use rbft.Changes.{valid_round_change, get_set_of_round_change_senders}

-- The hash map from a prepared round to its round changes.
abbrev pub Support : Type 0
Support = List (ℕ × List SignedRoundChange)

-- `entry(r).or_default().push(rc)`.
unfoldable pub entry_push : ℕ → SignedRoundChange → Support → Support
entry_push r rc [] = (r, rc ∷ []) ∷ []
entry_push r rc ((k, rcs) ∷ m) = if k == r then (k, rc ∷ rcs) ∷ m else (k, rcs) ∷ entry_push r rc m

-- `get(r).cloned().unwrap_or_default()`.
unfoldable pub entry_get : ℕ → Support → List SignedRoundChange
entry_get r [] = []
entry_get r ((k, rcs) ∷ m) = if k == r then rcs else entry_get r m

-- The highest round with enough distinct senders.
unfoldable pub highest_supported : ℕ → Support → Option ℕ
highest_supported needed [] = none
highest_supported needed ((r, rcs) ∷ m) =
    let rest = highest_supported needed m in
    if ltb (length (get_set_of_round_change_senders rcs)) needed
    then rest
    else elim rest [ none ↦ some r | some best ↦ some (max r best) ]

unfoldable pub validate_non_prepared_block : Block → Blockchain → ℕ → Bool
validate_non_prepared_block b bc round =
    b.header.proposer == proposer round bc && not (is_empty b.header.validators)

module _ ⦃env : Env⦄ where
  -- The block as it was, or would have been, proposed in an earlier round.
  unfoldable pub as_of_round : Blockchain → Block → ℕ → Block
  as_of_round bc b r = record b {
    header = record (b.header) { round_number = r; proposer = proposer r bc };
  }

  -- Does the round change name this block as prepared in the round?
  abbrev supports : Blockchain → Block → ℕ → ℕ → Bool
  supports bc b r value = digest (as_of_round bc b r) == value

  add_support : Blockchain → Block → Option ℕ → Option ℕ → SignedRoundChange → Support → Support
  add_support bc b (some r) (some value) rc m =
      if supports bc b r value then entry_push r rc m else m
  add_support bc b _ _ rc m = m

  unfoldable pub prepared_support : Blockchain → Block → List SignedRoundChange → Support
  unfolding add_support
  prepared_support bc b [] = []
  prepared_support bc b (rc ∷ rcs) =
      let u = rc.unsigned_payload in
      add_support bc b u.prepared_round u.prepared_value rc (prepared_support bc b rcs)

  -- `round_sort_key` of both blocks.
  abbrev same_round_key : Block → Block → Bool
  same_round_key a b = a.header.round_number == b.header.round_number && digest a == digest b

  -- A round change of the prepared round whose value is the block, and all prepares are for it.
  confirms :
      Blockchain → Block → ℕ → List Address → List SignedPrepare → ℕ → Option ℕ → Option ℕ → Bool
  confirms bc b height validators prepares prepared_round (some r) (some value) =
      r == prepared_round
      && supports bc b r value
      && all (λ p. valid_signed_prepare_for_height_round_and_digest p height r value validators)
          prepares
  confirms bc b height validators prepares prepared_round _ _ = false

  -- The case where f + 1 round changes prepared the block.
  unfoldable pub prepared_justification :
      List SignedRoundChange
      → List SignedPrepare
      → List Block
      → ℕ
      → Block
      → List Address
      → Blockchain
      → ℕ
      → Bool
  unfolding confirms
  prepared_justification rcs prepares available height b validators bc prepared_round =
      any (λ a. same_round_key a b) available
      && b.header.height == height
      && leb (quorum (length validators)) (
          length (
            get_set_of_round_change_senders (entry_get prepared_round (prepared_support bc b rcs))))
      && leb (quorum (length validators)) (length (distinct (prepare_authors prepares)))
      && any
          (λ rc.
            confirms bc b height validators prepares prepared_round
              rc.unsigned_payload.prepared_round rc.unsigned_payload.prepared_value)
          rcs

  -- The case of a new block.
  unfoldable pub fresh_justification : ℕ → ℕ → Block → (Block → Bool) → Address → Bool
  fresh_justification height round b validate_block round_leader =
      validate_block b
      && b.header.round_number == round
      && b.header.height == height
      && b.header.proposer == round_leader

  unfoldable pub is_proposal_justification :
      List SignedRoundChange
      → List SignedPrepare
      → List Block
      → ℕ
      → ℕ
      → Block
      → (Block → Bool)
      → Address
      → List Address
      → Blockchain
      → Bool
  is_proposal_justification rcs prepares available height round b validate_block round_leader
        validators bc =
      if round == 0
      then fresh_justification height 0 b validate_block round_leader
      else leb (quorum (length validators)) (length (get_set_of_round_change_senders rcs))
        && all (λ m. valid_round_change m height round validators) rcs
        && elim (highest_supported (f (length validators) + 1) (prepared_support bc b rcs)) [
          | some r ↦ prepared_justification rcs prepares available height b validators bc r
          | none ↦ fresh_justification height round b validate_block round_leader
        ]

  -- A node without an accepted proposal takes one for its round, any other for a later round.
  unfoldable pub round_acceptable : NodeState → ℕ → Bool
  round_acceptable s r =
      if is_none s.proposal_accepted_for_current_round then r == s.round else ltb s.round r

  unfoldable pub is_valid_proposal : Proposal → NodeState → Bool
  is_valid_proposal p s =
      let u = p.proposal_payload.unsigned_payload in
      let bc = s.blockchain in
      let round_leader = proposer u.round bc in
      u.height == Chain.height bc
      && recover_signed_proposal_author p.proposal_payload == round_leader
      && is_proposal_justification p.proposal_justification p.round_change_justification
          (p.proposed_block ∷ []) (Chain.height bc) u.round p.proposed_block
          (λ b. validate_non_prepared_block b bc u.round) round_leader (Chain.validators bc) bc
      && u.digest == digest p.proposed_block
      && round_acceptable s u.round
