-- ===== src/Runs/Handlers.antt =====
-- Each handler of crates/rbft/src/node.rs against the accepted proposal and the commits.
use mathlib.Core.List.{reverse}
use rbft.Base.{
  ℕ, ◌≤◌, ◌<◌, ◌≡◌, refl, ◌∙◌, ◌⊎◌, inl, inr, Option, none, some, true, false, arith, Gives,
  Gives_ok, find_map, find_map-mem, is_none, ◌&&◌, not,
}
use rbft.Types.{Address, PrivateKey, Block, Proposal, QbftMessage}
use rbft.Env.{Env}
use rbft.Chain
use rbft.State.{
  NodeState, insert_message_sorted, new_round, get_new_block, messages_received,
  prune_messages_below_height, set_last_prepared_block_and_round, is_the_proposer_for_current_round,
}
use rbft.Sign.{sign_proposal, sign_prepare, sign_commit, sign_hash, sign_new_block}
use rbft.Justify.{is_valid_proposal}
use rbft.Justify.Sound.{is_valid_proposal-IsProposed}
use rbft.Seals.Safety.{valid_new_block-IsSealed}
use rbft.Node.Normal.{
  multicast, propose, upon_block_timeout_ready, commit_quorum, upon_block_timeout, accept_proposal,
  valid_proposal_in, upon_proposal, send_commit, upon_prepare, adopt, commit_block, sealed,
  upon_commit, valid_new_block_in, upon_new_block, has_sent_commit, prepare_quorum,
}
use rbft.Node.Steps.{adopt-IsStep, valid_proposal_in-some, valid_new_block_in-some}
use rbft.Node.Invariant.{Inv, sign_bytes_lem}
use rbft.Runs.Steady.{IsLow, Keeps, store-Keeps, Steady, silent-Steady, on_some-Steady, if-Steady}

is_none→none : {A : Type 0} (o : Option A) → is_none o ≡ true → o ≡ none
is_none→none none e = refl
is_none→none (some a) e = cc

-- A round of this height: the current one without an accepted proposal, or a later one.
pub open_round-Keeps :
    (s : NodeState) (p : Option Proposal) (start r : ℕ)
    → ((is_none s.proposal_accepted_for_current_round ≡ true) × (r ≡ s.round))
      ⊎ ((is_none s.proposal_accepted_for_current_round ≡ false) × (s.round < r))
    → Keeps s (record s {
      proposal_accepted_for_current_round = p;
      time_last_round_start = start;
      round = r;
    })
open_round-Keeps s p start r (inl (n, e)) =
    inr (record { height = refl; round = e; accepted = inl (is_none→none _ n) })
open_round-Keeps s p start r (inr (n, l)) = inl (inr (refl, l))

store-IsLow : (s : NodeState) (m : QbftMessage) → IsLow (insert_message_sorted s m) → IsLow s
unfolding insert_message_sorted
store-IsLow s m low = ground arith

prune-Keeps : (s t : NodeState) → Keeps s t → Keeps s (prune_messages_below_height t)
unfolding prune_messages_below_height
prune-Keeps s t (inl h) = inl h
prune-Keeps s t (inr h) = inr (record { height = h.height; round = h.round; accepted = h.accepted })

-- A new head that is not below the height.
adopt-Keeps :
    ⦃env : Env⦄ (s : NodeState) (b : Block)
    → Chain.height s.blockchain ≤ b.header.height
    → IsLow (adopt s b)
    → Keeps s (adopt s b)
unfolding adopt new_round Chain.set_head Chain.set_proposed_block Chain.height
adopt-Keeps s b h low = inl (inl (omega (arith, h, low)))

module _ ⦃env : Env⦄ (k : PrivateKey) (a : Address) (f : env.signer_address k ≡ some a)
    (s : NodeState) (v : Inv s) (e : s.private_key ≡ some k) where
  propose-Steady :
      (b : Block)
      → s.proposal_accepted_for_current_round ≡ none
      → Gives (propose s b) (Steady k a s)
  unfolding propose sign_proposal sign_prepare multicast
  propose-Steady b n =
      rw (sign_bytes_lem k a, e, f)
        (rw (sign_bytes_lem k a, e, f)
          (Gives_ok (Steady k a s) _ (
            silent-Steady k a s _ _ refl
              λ _. inr (record { height = refl; round = refl; accepted = inl n }))))

  pub upon_block_timeout-Steady : Gives (upon_block_timeout s) (Steady k a s)
  unfolding upon_block_timeout upon_block_timeout_ready
  upon_block_timeout-Steady = if-Steady k a s (upon_block_timeout_ready s) _ λ t.
      on_some-Steady k a s (get_new_block s 0) (propose s)
        λ b g. propose-Steady b (is_none→none _ (ground arith))

  accept_proposal-Steady :
      (p : Proposal) → is_valid_proposal p s ≡ true → Gives (accept_proposal s p) (Steady k a s)
  unfolding accept_proposal sign_prepare multicast
  accept_proposal-Steady p valid =
      let h = is_valid_proposal-IsProposed p s valid in
      rw (sign_bytes_lem k a, e, f)
        (Gives_ok (Steady k a s) _ (
          silent-Steady k a s _ _ refl
            λ _. store-Keeps s _ _ (open_round-Keeps s (some p) _ _ h.in_round)))

  pub upon_proposal-Steady : Gives (upon_proposal s) (Steady k a s)
  unfolding upon_proposal
  upon_proposal-Steady =
      on_some-Steady k a s (find_map (valid_proposal_in s) (messages_received s))
        (accept_proposal s)
        λ p n.
          let (m, i, g) = find_map-mem (valid_proposal_in s) (messages_received s) p n in
          accept_proposal-Steady p (valid_proposal_in-some s v m p g).1

  commit_block-Steady :
      (b : Block)
      → Chain.height s.blockchain ≤ b.header.height
      → Gives (commit_block s b) (Steady k a s)
  unfolding commit_block sign_new_block multicast
  commit_block-Steady b h =
      rw (sign_bytes_lem k a, (adopt-IsStep s v b h).key ∙ e, f)
        (Gives_ok (Steady k a s) _ (
          silent-Steady k a s _ _ refl
            λ low. store-Keeps s _ _ (adopt-Keeps s b h (store-IsLow (adopt s b) _ low))))

  pub upon_commit-Steady : Gives (upon_commit s) (Steady k a s)
  unfolding upon_commit
  upon_commit-Steady = on_some-Steady k a s s.proposal_accepted_for_current_round _ λ p n.
      if-Steady k a s (is_the_proposer_for_current_round s && commit_quorum s p.proposed_block) _
        λ _.
          commit_block-Steady (sealed s p.proposed_block)
            (unfold sealed in omega (arith, v.accepted p n))

  send_commit-Steady :
      (p : Proposal)
      → s.proposal_accepted_for_current_round ≡ some p
      → Gives (send_commit s p.proposed_block) (Steady k a s)
  unfolding send_commit sign_hash sign_commit multicast set_last_prepared_block_and_round
      insert_message_sorted
  send_commit-Steady p n =
      rw (sign_bytes_lem k a, e, f)
        (rw (sign_bytes_lem k a, e, f)
          (Gives_ok (Steady k a s) _ (record {
            keeps = λ _.
                store-Keeps s _ _
                  (inr (record { height = refl; round = refl; accepted = inr refl }));
            commits = inr (record {
              block = p;
              is_accepted = n;
              still = ground (arith, n);
              height = ground arith;
              round = ground arith;
              sends = refl;
            });
          })))

  pub upon_prepare-Steady : Gives (upon_prepare s) (Steady k a s)
  unfolding upon_prepare
  upon_prepare-Steady = on_some-Steady k a s s.proposal_accepted_for_current_round _ λ p n.
      if-Steady k a s (prepare_quorum s p.proposed_block && not (has_sent_commit s)) _
        λ _. send_commit-Steady p n

  pub upon_new_block-Steady : Gives (upon_new_block s) (Steady k a s)
  unfolding upon_new_block prune_messages_below_height
  upon_new_block-Steady =
      on_some-Steady k a s (find_map (valid_new_block_in s) (reverse s.messages_received)) _ λ b n.
        let (m, i, g) = find_map-mem (valid_new_block_in s) (reverse s.messages_received) b n in
        let valid = valid_new_block_in-some s v m b g in
        let checked = valid_new_block-IsSealed s.blockchain b valid.1 in
        Gives_ok (Steady k a s) _ (
          silent-Steady k a s _ _ refl
            λ low. prune-Keeps s _ (adopt-Keeps s b.block checked.at_height low))
