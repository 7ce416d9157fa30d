-- ===== src/Driver/Advance/Synced.antt =====
-- A tick from a model that is in step with the execution layer ends in step with it.
use rbft.Base.{
  ℕ, ◌+◌, ◌≤◌, ◌<◌, ◌^◌, ◌≡◌, refl, sym, ap, ◌∙◌, subst, List, [], ◌∷◌, Option, none, some, u64,
  arith, Gives, ◌⊎◌, inl, inr, Bool-cases,
}
use rbft.Types.{QbftMessage, QbftMessageWithRecipient}
use rbft.Env.{Env}
use rbft.Chain.{Blockchain}
use rbft.Chain
use rbft.Chain.Prune.{prune_keeps}
use rbft.State.{
  NodeState, add_each, add_messages, insert_message_sorted, prune_messages_below_height,
}
use rbft.State.Intake.{insert_message-blockchain, add_each-blockchain}
use rbft.Checks.{whoami}
use rbft.Node.Invariant.{Advance}
use rbft.Runs.{node_next-IsStep}
use rbft.Runs.Invariant.{Held, add_messages-Held}
use rbft.Driver.Reth.{Reth}
use rbft.Driver.Sync.{World, gather, highest_newblock_message}
use rbft.Driver.Screening.{RawRlp, validate_proposal_with_validator}
use rbft.Driver.Advance.{
  is_enabled, push_messages, step_on, advance_consensus, handle_block_responses, advance,
}
use rbft.Driver.Commit.{Turn}
use rbft.Driver.Advance.Offered.{Ready, Builds, InSync, prepare_proposal-Ready}
use rbft.Driver.Advance.InStep.{MovesTip, InStep, SameHead, settle-InStep, prepare_proposal-tip}
use rbft.Driver.Advance.Total.{advance-Gives}
use rbft.Driver.Contract.Total.{HasEpochs}
use rbft.Driver.Advance.Held.{add_messages-round, handle_block_responses-Follows}

push_messages-blockchain :
    (s : NodeState) (ms : List QbftMessageWithRecipient)
    → (push_messages s ms).blockchain ≡ s.blockchain
unfolding push_messages
push_messages-blockchain s [] = refl
push_messages-blockchain s (m ∷ ms) =
    push_messages-blockchain (insert_message_sorted s m.message) ms
    ∙ insert_message-blockchain s m.message

module _ ⦃env : Env⦄ where
  add_messages-head :
      (s : NodeState) (incoming : List QbftMessage) (time : ℕ)
      → (add_messages s incoming time).blockchain.head ≡ s.blockchain.head
  unfolding add_messages prune_messages_below_height
  add_messages-head s incoming time =
      let u : NodeState = record s { local_time = time } in
      let vs = Chain.validators s.blockchain in
      (prune_keeps (add_each vs incoming u).blockchain).0
      ∙ ap (λ bc. bc.head) (add_each-blockchain vs incoming u)

  -- The chain is at this height, or its head is not below it.
  abbrev IsAhead : ℕ → Blockchain → Type 0
  IsAhead n bc = (Chain.height bc ≡ n) ⊎ (n ≤ bc.head.header.height)

  step-IsAhead :
      (u v : NodeState) (n : ℕ)
      → Advance u v
      → Chain.height u.blockchain ≡ n
      → IsAhead n v.blockchain
  step-IsAhead u v n (inl (same, l)) e = inl (ap Chain.height same ∙ e)
  step-IsAhead u v n (inr (b, new, l, z)) e =
      let head : v.blockchain.head ≡ b = ap (λ bc. bc.head) new in
      inr (subst (λ c. n ≤ c.header.height) (sym head) (omega arith))

module _ ⦃env : Env⦄ ⦃reth : Reth⦄ where
  step_on-InStep :
      (moves : MovesTip) (k a : ℕ) (node_height : ℕ) (turn : Turn) (r : reth.State)
      (incoming : List QbftMessage) (o : Option NodeState) (s : NodeState)
      → env.signer_address k ≡ some a
      → s.round + 1 < 2 ^ 64
      → node_height ≤ reth.best_block_number r + 1
      → InSync (r, s)
      → Ready k s o
      → SameHead s o
      → Gives (step_on node_height turn r incoming o s) (λ x. InStep x.0)
  unfolding Chain.height
  step_on-InStep moves k a nh turn r incoming none s valid small l sync ready head =
      (_, refl, inl sync)
  step_on-InStep moves k a nh turn r incoming (some t) s valid small l sync (ht, same) head =
      let u = add_messages t incoming turn.time in
      let hu : Held k u = add_messages-Held k t incoming turn.time ht in
      let round = add_messages-round t incoming turn.time in
      let ((v, out), e, (st, _)) =
        node_next-IsStep u turn.time hu.0 (omega (arith, round, same)) (λ _. (k, a, hu.1, valid)) in
      let heads : u.blockchain.head ≡ s.blockchain.head =
        add_messages-head t incoming turn.time ∙ head in
      let at : Chain.height u.blockchain ≡ reth.best_block_number r + 1 =
        ap (λ b. u64 (b.header.height + 1)) heads ∙ sync in
      let n = reth.best_block_number r + 1 in
      let pushed =
        subst (IsAhead n) (sym (push_messages-blockchain v out))
          (step-IsAhead u v n st.advance at) in
      rw e (_, refl, settle-InStep moves nh turn r (push_messages v out) (omega arith) l pushed)

  advance_consensus-InStep :
      (moves : MovesTip) (k a : ℕ) (node_height : ℕ) (turn : Turn) (w : World)
      (incoming : List QbftMessage)
      → env.signer_address k ≡ some a
      → Builds
      → w.1.round + 1 < 2 ^ 64
      → Held k w.1
      → node_height ≤ reth.best_block_number w.0 + 1
      → InSync w
      → Gives (advance_consensus node_height turn w incoming) (λ x. InStep x.0)
  unfolding advance_consensus
  advance_consensus-InStep moves k a nh turn (r, s) incoming valid builds small h l sync =
      let (p, e, ready) = prepare_proposal-Ready k nh turn (r, s) builds sync h in
      let (tip, head) = prepare_proposal-tip moves nh turn (r, s) p e in
      let still : InSync (p.0, s) = sync ∙ ap (λ n. n + 1) (sym tip) in
      rw e (
        step_on-InStep moves k a nh turn p.0 incoming p.1 s valid small (omega (arith, tip)) still
          ready head)

  -- A tick ends with the model in step with the execution layer: the model's height is the one after its
  -- best block, unless the fork choice update to the head that the model has taken was not answered as
  -- valid, or that head does not decode to a block of its own height, or has the largest height. This is
  -- so whatever messages have come in, for a node that satisfies the invariant, in a round below 2^64 - 1,
  -- with a valid key, where the epoch lengths of the contract are above 0, the execution layer builds the
  -- blocks it is asked for, and keeps its best block but where a fork choice update to a valid block is
  -- answered as valid, which makes that block the best; when the answers have been handled, the best
  -- block must not be lower than before, and the model in step.
  pub advance-InStep :
      ⦃raw : RawRlp⦄
      → (moves : MovesTip) (k a : ℕ) (turn : Turn) (w : World) (messages : List QbftMessage)
      → env.signer_address k ≡ some a
      → HasEpochs (reth.provider w.0)
      → Builds
      → Held k w.1
      → w.1.round + 1 < 2 ^ 64
      → reth.best_block_number w.0
        ≤ reth.best_block_number
            (handle_block_responses w
              (gather validate_proposal_with_validator messages).block_responses).0
      → InSync (
          handle_block_responses w
            (gather validate_proposal_with_validator messages).block_responses)
      → Gives (advance turn w messages) (λ x. InStep x.0)
  advance-InStep moves k a turn w messages valid epochs builds h small l sync =
      let come = gather validate_proposal_with_validator messages in
      let v = handle_block_responses w come.block_responses in
      let f = handle_block_responses-Follows k w.1.round w come.block_responses (h, omega arith) in
      let node_height = u64 (reth.best_block_number w.0 + 1) in
      let highest = highest_newblock_message come.incoming_messages in
      advance-Gives (λ x. InStep x.0) turn w messages epochs
        λ fresh answers.
          elim (Bool-cases (is_enabled fresh.debug_catchup_block (whoami w.1) v.1 highest)) [
            | inr e ↦ rw e (_, refl, inl sync)
            | inl e ↦
                let (x, g, hx) =
                  advance_consensus-InStep moves k a node_height fresh v come.incoming_messages
                    valid builds (omega (arith, f.1)) f.0 (omega arith) sync in
                rw (e, g) (_, refl, hx)
          ]
