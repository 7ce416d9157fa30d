-- ===== src/Node/Changing.antt =====
-- `upon_round_change` of crates/rbft/src/node.rs. The branch behind `use_ibft_method`, which is the
-- constant false, is not modelled.
use rbft.Base.{ℕ, Option, none, some, ltb, if◌then◌else◌, ◌>>=◌, Exec, ok, length}
use rbft.Types.{ProposalJustification, proposal, round_change}
use rbft.Env.{Env, digest}
use rbft.Chain
use rbft.Quorum.{f}
use rbft.State.{NodeState, insert_message_sorted}
use rbft.Sign.{sign_proposal}
use rbft.Changes.{
  extract_signed_prepares, extract_signed_round_changes, create_round_change,
  received_signed_round_changes_for_current_height_and_future_rounds,
  get_set_of_round_change_senders, min_round,
}
use rbft.Justify.{as_of_round}
use rbft.Received.{has_received_proposal_justification}
use rbft.Node.Normal.{Transition, multicast}

module _ ⦃env : Env⦄ where
  -- The leader's proposal, with what justifies it.
  unfoldable pub propose_justified : NodeState → ProposalJustification → Exec Transition
  propose_justified s j = do
    let b = as_of_round s.blockchain j.block j.round
    payload ←
        sign_proposal
          (record { height = Chain.height s.blockchain; round = j.round; digest = digest b }) s
    let m = proposal (record {
      proposal_payload = payload;
      proposed_block = b;
      proposal_justification = extract_signed_round_changes j.round_changes;
      round_change_justification = extract_signed_prepares j.prepares;
    })
    let t = record s {
      time_last_round_start = if ltb s.round j.round then s.local_time else s.time_last_round_start;
      round = j.round;
      proposal_accepted_for_current_round = none;
    }
    ok (insert_message_sorted t m, some (multicast (Chain.validators t.blockchain) m))

  unfoldable pub join_round_change : NodeState → ℕ → Exec Transition
  join_round_change s r = do
    rc ← create_round_change s r
    let t = record s { round = r; proposal_accepted_for_current_round = none }
    ok (
      insert_message_sorted t (round_change rc),
      some (multicast (Chain.validators t.blockchain) (round_change rc)),
    )

  -- More than f senders of round changes for later rounds take the node along.
  unfoldable pub follow_round_changes : NodeState → Exec Transition
  follow_round_changes s =
      let rcs = received_signed_round_changes_for_current_height_and_future_rounds s in
      if ltb (f (length (Chain.validators s.blockchain)))
        (length (get_set_of_round_change_senders rcs))
      then join_round_change s (min_round rcs)
      else ok (s, none)

  abbrev pub lead_or_follow : NodeState → Option ProposalJustification → Exec Transition
  lead_or_follow s (some j) = propose_justified s j
  lead_or_follow s none = follow_round_changes s

  unfoldable pub upon_round_change : NodeState → Exec Transition
  upon_round_change s = lead_or_follow s (has_received_proposal_justification s)
