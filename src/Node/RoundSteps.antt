-- ===== src/Node/RoundSteps.antt =====
-- The handlers of round changes against what a handler may do.
use rbft.Base.{
  ℕ, ◌+◌, ◌≤◌, ◌<◌, ◌^◌, ◌≡◌, refl, Option, none, some, Bool, [], ◌∙◌, ltb→lt, true, false, arith,
  Exec, Gives, Gives_ok, u64, inl, is_none, if-holds, ltb, leb, length, ◌&&◌, not, ◌==◌,
}
use rbft.Types.{ProposalJustification, Block}
use rbft.Env.{Env}
use rbft.Chain
use rbft.State.{NodeState, next_round_timeout}
use rbft.Sign.{sign_proposal, sign_round_change}
use rbft.Votes.{round_zero_progress_counts}
use rbft.Quorum.{f}
use rbft.Changes.{
  create_round_change, get_round_change_justification, min_round, get_set_of_round_change_senders,
  justify_prepared, justification_for,
  received_signed_round_changes_for_current_height_and_future_rounds,
}
use rbft.Changes.Rounds.{min_round-received}
use rbft.Received.{has_received_proposal_justification}
use rbft.Received.Found.{IsFound, has_received-IsFound}
use rbft.Node.Normal.{Transition}
use rbft.Node.Timeouts.{
  defer_round_zero_timeout, move_to_next_round, upon_round_timeout, unless_deferred,
}
use rbft.Node.Changing.{
  propose_justified, lead_or_follow, join_round_change, follow_round_changes, upon_round_change,
}
use rbft.Node.Deferred.{IsDeferred, IsDeferred-IsStep, defer_if-IsDeferred}
use rbft.Node.Steps.{if-Handles}
use rbft.Node.Invariant.{Inv, IsStep, Handles, HasKey, stay, store-IsStep, sign_bytes_lem}

module _ ⦃env : Env⦄ (s : NodeState) (v : Inv s) where
  justify_prepared-returns :
      (b : Option Block) (r : Option ℕ)
      → is_none r ≡ is_none b
      → Gives (justify_prepared s b r) (λ ps. Unit {0})
  justify_prepared-returns none r e = ([], refl, tt)
  justify_prepared-returns (some b) none e = cc
  justify_prepared-returns (some b) (some r) e = (justification_for s r b, refl, tt)

  get_justification-returns : Gives (get_round_change_justification s) (λ ps. Unit {0})
  unfolding get_round_change_justification
  get_justification-returns =
      justify_prepared-returns s.last_prepared_block s.last_prepared_round v.prepared

  -- A node with a key can always make a round change message.
  pub create_round_change-returns :
      (r : ℕ) → HasKey s → Gives (create_round_change s r) (λ rc. Unit {0})
  unfolding create_round_change sign_round_change
  create_round_change-returns r (k, a, e, f) =
      let (ps, g, _) = get_justification-returns in
      rw (sign_bytes_lem k a, e, f) (rw g (Gives_ok (λ rc. Unit {0}) _ tt))

  -- Another round of this height begins, with no proposal accepted.
  round-IsStep :
      (r start : ℕ)
      → s.round ≤ r
      → IsStep s (record s {
        time_last_round_start = start;
        round = r;
        proposal_accepted_for_current_round = none;
      })
  round-IsStep r start h = record {
    inv = record {
      store = record { sorted = v.store.sorted; indexed = v.store.indexed; slice = v.store.slice };
      prepared = v.prepared;
      proposed = v.proposed;
      accepted = λ q e. cc;
    };
    id = refl;
    key = refl;
    configuration = refl;
    clock = refl;
    advance = inl (refl, h);
  }

  move_to_next_round-IsStep :
      s.round + 1 < 2 ^ 64 → HasKey s → Gives (move_to_next_round s) (λ r. IsStep s r.0)
  unfolding move_to_next_round
  move_to_next_round-IsStep small k =
      let (rc, e, _) = create_round_change-returns (u64 (s.round + 1)) k in
      rw e (Gives_ok (λ r. IsStep s r.0) _ (store-IsStep s _ _ (round-IsStep _ _ (omega arith))))

  propose_justified-Handles :
      (j : ProposalJustification)
      → IsFound s j
      → HasKey s
      → Gives (propose_justified s j) (Handles s)
  unfolding propose_justified sign_proposal
  propose_justified-Handles j found (k, a, e, f) =
      rw (sign_bytes_lem k a, e, f)
        (Gives_ok (Handles s) _
          (store-IsStep s _ _ (round-IsStep j.round _ (ground (arith, found.in_round))), λ n. cc))

  join_round_change-Handles :
      (r : ℕ) → s.round ≤ r → HasKey s → Gives (join_round_change s r) (Handles s)
  unfolding join_round_change
  join_round_change-Handles r h k =
      let (rc, e, _) = create_round_change-returns r k in
      rw e (Gives_ok (Handles s) _ (store-IsStep s _ _ (round-IsStep r _ h), λ n. cc))

  follow_round_changes-Handles : HasKey s → Gives (follow_round_changes s) (Handles s)
  unfolding follow_round_changes
  follow_round_changes-Handles k =
      let rcs = received_signed_round_changes_for_current_height_and_future_rounds s in
      if-Handles s v
        (ltb (f (length (Chain.validators s.blockchain)))
          (length (get_set_of_round_change_senders rcs)))
        _
        λ enough.
          join_round_change-Handles (min_round rcs)
            (omega (arith, min_round-received s, ltb→lt _ _ enough)) k

  lead_or_follow-Handles :
      (o : Option ProposalJustification)
      → has_received_proposal_justification s ≡ o
      → HasKey s
      → Gives (lead_or_follow s o) (Handles s)
  lead_or_follow-Handles none e k = follow_round_changes-Handles k
  lead_or_follow-Handles (some j) e k = propose_justified-Handles j (has_received-IsFound s j e) k

  pub upon_round_change-Handles : HasKey s → Gives (upon_round_change s) (Handles s)
  unfolding upon_round_change
  upon_round_change-Handles = lead_or_follow-Handles (has_received_proposal_justification s) refl

module _ ⦃env : Env⦄ (s : NodeState) (v : Inv s) where
  unless_deferred-IsStep :
      (r : NodeState × Bool)
      → IsDeferred s r.0
      → s.round + 1 < 2 ^ 64
      → HasKey s
      → Gives (unless_deferred r) (λ q. IsStep s q.0)
  unless_deferred-IsStep (t, true) d small k =
      Gives_ok (λ q. IsStep s q.0) _ (IsDeferred-IsStep s t t d (stay t d.inv))
  unless_deferred-IsStep (t, false) d small (k, a, e, f) =
      let (q, g, h) =
        move_to_next_round-IsStep t d.inv (omega (arith, d.round)) (k, a, d.key ∙ e, f) in
      (q, g, IsDeferred-IsStep s t q.0 d h)

  -- The timeout moves on by one round, or defers, or does nothing.
  pub upon_round_timeout-IsStep :
      s.round + 1 < 2 ^ 64 → HasKey s → Gives (upon_round_timeout s) (λ q. IsStep s q.0)
  unfolding upon_round_timeout defer_round_zero_timeout
  upon_round_timeout-IsStep small k =
      let quiet = Gives_ok (λ q. IsStep s q.0) (s, none) (stay s v) in
      let P = λ (m : Exec Transition). Gives m (λ q. IsStep s q.0) in
      let early =
        not s.configuration.round_change_config.round_change_on_first_block
        && Chain.height s.blockchain == 1 in
      if-holds P early _ _ quiet (
        if-holds P (leb (next_round_timeout s) s.local_time) _ _
          (if-holds P (s.round == 0) _ _
            (unless_deferred-IsStep (defer_round_zero_timeout s)
              (defer_if-IsDeferred s (round_zero_progress_counts s) v) small k)
            (move_to_next_round-IsStep s v small k))
          quiet)
