-- ===== src/Runs/RoundHandlers.antt =====
-- The handlers of round changes and timeouts against the accepted proposal and the commits.
use rbft.Base.{
  ℕ, ◌+◌, ◌^◌, ◌<◌, ◌≡◌, refl, ◌∙◌, inl, inr, List, [], Option, none, some, Bool, true, false,
  arith, Exec, Gives, Gives_ok, u64, ◌&&◌, not, if-holds, ltb, leb, ◌==◌, length, ltb→lt, ap,
}
use rbft.Types.{Address, PrivateKey, ProposalJustification, QbftMessage, QbftMessageWithRecipient}
use rbft.Env.{Env}
use rbft.Chain
use rbft.State.{NodeState, insert_message_sorted, next_round_timeout}
use rbft.Sign.{sign_proposal}
use rbft.Quorum
use rbft.Votes.{round_zero_progress_counts}
use rbft.Changes.{
  min_round, get_set_of_round_change_senders,
  received_signed_round_changes_for_current_height_and_future_rounds,
}
use rbft.Changes.Rounds.{min_round-received}
use rbft.Received.{has_received_proposal_justification}
use rbft.Received.Found.{IsFound, has_received-IsFound}
use rbft.Node.{sent}
use rbft.Node.Normal.{Transition, multicast}
use rbft.Node.Timeouts.{
  defer_round_zero_timeout, move_to_next_round, upon_round_timeout, unless_deferred,
}
use rbft.Node.Changing.{
  propose_justified, lead_or_follow, join_round_change, follow_round_changes, upon_round_change,
}
use rbft.Node.Deferred.{IsDeferred, unchanged, defer_if-IsDeferred}
use rbft.Node.RoundSteps.{create_round_change-returns}
use rbft.Node.Invariant.{Inv, sign_bytes_lem}
use rbft.Runs.Handlers.{open_round-Keeps}
use rbft.Runs.Steady.{Keeps, store-Keeps, commits_of, Steady, silent-Steady, idle-Steady, if-Steady}

module _ ⦃env : Env⦄ (k : PrivateKey) (a : Address) (f : env.signer_address k ≡ some a)
    (s : NodeState) (v : Inv s) (e : s.private_key ≡ some k) where
  propose_justified-Steady :
      (j : ProposalJustification) → IsFound s j → Gives (propose_justified s j) (Steady k a s)
  unfolding propose_justified sign_proposal multicast
  propose_justified-Steady j found =
      rw (sign_bytes_lem k a, e, f)
        (Gives_ok (Steady k a s) _ (
          silent-Steady k a s _ _ refl
            λ _. store-Keeps s _ _ (open_round-Keeps s none _ j.round found.in_round)))

  later-Steady :
      (r start : ℕ) (m : QbftMessage) (out : Option (List QbftMessageWithRecipient))
      → s.round < r
      → commits_of (sent out) ≡ []
      → Steady k a s (
        insert_message_sorted
            (record s {
              time_last_round_start = start;
              round = r;
              proposal_accepted_for_current_round = none;
            })
            m,
        out,
      )
  later-Steady r start m out l q =
      silent-Steady k a s _ out q λ _. store-Keeps s _ _ (inl (inr (refl, l)))

  join_round_change-Steady : (r : ℕ) → s.round < r → Gives (join_round_change s r) (Steady k a s)
  unfolding join_round_change multicast
  join_round_change-Steady r l =
      let (rc, g, _) = create_round_change-returns s v r (k, a, e, f) in
      rw g (Gives_ok (Steady k a s) _ (later-Steady r s.time_last_round_start _ _ l refl))

  follow_round_changes-Steady : Gives (follow_round_changes s) (Steady k a s)
  unfolding follow_round_changes
  follow_round_changes-Steady =
      let rcs = received_signed_round_changes_for_current_height_and_future_rounds s in
      if-Steady k a s
        (ltb (Quorum.f (length (Chain.validators s.blockchain)))
          (length (get_set_of_round_change_senders rcs)))
        _
        λ enough.
          join_round_change-Steady (min_round rcs)
            (min_round-received s (omega (arith, ltb→lt _ _ enough)))

  lead_or_follow-Steady :
      (o : Option ProposalJustification)
      → has_received_proposal_justification s ≡ o
      → Gives (lead_or_follow s o) (Steady k a s)
  lead_or_follow-Steady none g = follow_round_changes-Steady
  lead_or_follow-Steady (some j) g = propose_justified-Steady j (has_received-IsFound s j g)

  pub upon_round_change-Steady : Gives (upon_round_change s) (Steady k a s)
  unfolding upon_round_change
  upon_round_change-Steady = lead_or_follow-Steady (has_received_proposal_justification s) refl

  move_to_next_round-Keeps :
      s.round + 1 < 2 ^ 64
      → Gives (move_to_next_round s) (λ r. Keeps s r.0 × (commits_of (sent r.1) ≡ []))
  unfolding move_to_next_round multicast
  move_to_next_round-Keeps small =
      let (rc, g, _) = create_round_change-returns s v (u64 (s.round + 1)) (k, a, e, f) in
      rw g (
        Gives_ok (λ r. Keeps s r.0 × (commits_of (sent r.1) ≡ [])) _
          (store-Keeps s _ _ (inl (inr (refl, omega arith))), refl))

-- A deferral changes neither the round nor the proposal.
deferred-Keeps : (s t : NodeState) → IsDeferred s t → Keeps s t
deferred-Keeps s t d = inr (record {
  height = ap (λ c. Chain.height c) d.chain;
  round = d.round;
  accepted = inr d.accepted;
})

deferred-Later : (s t u : NodeState) → IsDeferred s t → Keeps t u → Keeps s u
deferred-Later s t u d (inl (inl h)) = inl (inl (ground (arith, d.chain)))
deferred-Later s t u d (inl (inr (g, h))) =
    inl (inr (g ∙ ap (λ c. Chain.height c) d.chain, omega (arith, d.round)))
deferred-Later s t u d (inr h) = inr (record {
  height = h.height ∙ ap (λ c. Chain.height c) d.chain;
  round = h.round ∙ d.round;
  accepted = ground (arith, h.accepted, d.accepted);
})

module _ ⦃env : Env⦄ (k : PrivateKey) (a : Address) (f : env.signer_address k ≡ some a)
    (s : NodeState) (v : Inv s) (e : s.private_key ≡ some k) (small : s.round + 1 < 2 ^ 64) where
  unless_deferred-Steady :
      (r : NodeState × Bool) → IsDeferred s r.0 → Gives (unless_deferred r) (Steady k a s)
  unless_deferred-Steady (t, true) d =
      Gives_ok (Steady k a s) _ (silent-Steady k a s t none refl λ _. deferred-Keeps s t d)
  unless_deferred-Steady (t, false) d =
      let (q, g, h) =
        move_to_next_round-Keeps k a f t d.inv (d.key ∙ e) (omega (arith, d.round, small)) in
      (q, g, silent-Steady k a s q.0 q.1 h.1 λ _. deferred-Later s t q.0 d h.0)

  pub upon_round_timeout-Steady : Gives (upon_round_timeout s) (Steady k a s)
  unfolding upon_round_timeout defer_round_zero_timeout
  upon_round_timeout-Steady =
      let quiet = Gives_ok (Steady k a s) (s, none) (idle-Steady k a s) in
      let P = λ (m : Exec Transition). Gives m (Steady k a s) in
      let early =
        not s.configuration.round_change_config.round_change_on_first_block
        && Chain.height s.blockchain == 1 in
      if-holds P early _ _ quiet (
        if-holds P (leb (next_round_timeout s) s.local_time) _ _
          (if-holds P (s.round == 0) _ _
            (unless_deferred-Steady (defer_round_zero_timeout s)
              (defer_if-IsDeferred s (round_zero_progress_counts s) v))
            (unless_deferred-Steady (s, false) (unchanged s v)))
          quiet)
