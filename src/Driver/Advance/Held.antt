-- ===== src/Driver/Advance/Held.antt =====
-- A tick keeps the node's invariant.
use rbft.Base.{
  u64, ℕ, ◌+◌, ◌≤◌, ◌<◌, ◌^◌, ◌≡◌, refl, ◌∙◌, List, [], ◌∷◌, Option, none, some, ltb, arith, Gives,
  inl, inr, Bool-cases, Option-cases, is_some,
}
use rbft.Types.{
  SignedNewBlock, Address, PrivateKey, BlockResponse, QbftMessage, QbftMessageWithRecipient,
}
use rbft.Env.{Env}
use rbft.Chain
use rbft.State.{
  NodeState, add_message, add_each, add_messages, insert_message_sorted,
  prune_messages_below_height, new_round,
}
use rbft.State.Intake.{add_message_cases}
use rbft.Node.Invariant.{stay, store-IsStep}
use rbft.Runs.{node_next-IsStep}
use rbft.Runs.Invariant.{Held, add_messages-Held, new-Inv}
use rbft.Driver.Contract.{ChainConfig}
use rbft.Driver.Reth.{Reth}
use rbft.Driver.Sync.{World, handle_block_response, sync_to, gather, highest_newblock_message}
use rbft.Checks.{whoami}
use rbft.Driver.Advance.Total.{advance-Gives}
use rbft.Driver.Contract.Total.{HasEpochs}
use rbft.Driver.Sync.Imports.{
  Imported, here, refused, imported, sync_to-Inv, handle_block_response-Imported,
}
use rbft.Driver.Screening.{RawRlp, validate_proposal_with_validator}
use rbft.Driver.Advance.{
  is_enabled, push_messages, settle, step_on, advance_consensus, handle_block_responses, advance,
}
use rbft.Driver.Commit.{
  Turn, block_from_chain, rebuild_node_state_from_chain, commit_block_to_reth_blockchain, state_or,
  configured,
}
use rbft.State
use rbft.Driver.Advance.Offered.{Ready, Builds, InSync, prepare_proposal-Ready}

module _ ⦃env : Env⦄ where
  insert_message-round :
      (s : NodeState) (m : QbftMessage) → (insert_message_sorted s m).round ≡ s.round
  unfolding insert_message_sorted
  insert_message-round s m = ground arith

  add_each-round :
      (vs : List Address) (ms : List QbftMessage) (s : NodeState)
      → (add_each vs ms s).round ≡ s.round
  unfolding add_each
  add_each-round vs [] s = refl
  add_each-round vs (m ∷ ms) s =
      add_each-round vs ms (add_message vs s m)
      ∙ add_message_cases (λ t. t.round ≡ s.round) vs s m refl (λ a h. insert_message-round s m)

  pub add_messages-round :
      (s : NodeState) (incoming : List QbftMessage) (time : ℕ)
      → (add_messages s incoming time).round ≡ s.round
  unfolding add_messages prune_messages_below_height
  add_messages-round s incoming time =
      add_each-round (Chain.validators s.blockchain) incoming (record s { local_time = time })

  pub push_messages-Held :
      (k : PrivateKey) (s : NodeState) (ms : List QbftMessageWithRecipient)
      → Held k s
      → Held k (push_messages s ms)
  unfolding push_messages
  push_messages-Held k s [] h = h
  push_messages-Held k s (m ∷ ms) (v, e) =
      let st = store-IsStep s s m.message (stay s v) in
      push_messages-Held k (insert_message_sorted s m.message) ms (st.inv, st.key ∙ e)

module _ ⦃env : Env⦄ ⦃reth : Reth⦄ where
  rebuild-Held :
      (k : PrivateKey) (config : ChainConfig) (now : ℕ) (w : World)
      → Held k w.1
      → Held k (state_or w.1 (rebuild_node_state_from_chain config now w))
  unfolding rebuild_node_state_from_chain State.new
  rebuild-Held k config now (r, s) h =
      elim (Option-cases (reth.block r (reth.best_block_number r))) [
        | inl n ↦ rw n h
        | inr (latest, n) ↦
            elim (Bool-cases (is_some (reth.decode_sealed (reth.encode_sealed latest)))) [
              | inr e ↦ rw (n, e) h
              | inl e ↦
                  rw (n, e)
                    (
                      new-Inv
                          (record {
                            proposed_block = none;
                            head = block_from_chain config (reth.best_block_number r) latest;
                            older = [];
                          })
                          (configured config s.configuration) s.id s.private_key now refl,
                      h.1,
                    )
            ]
      ]

  commit-Held :
      (k : PrivateKey) (turn : Turn) (w : World)
      → Held k w.1
      → Held k (commit_block_to_reth_blockchain turn w).1
  unfolding commit_block_to_reth_blockchain
  commit-Held k turn (r, s) h = elim (Option-cases (reth.decode_sealed s.blockchain.head.body)) [
    | inl n ↦ rw n h
    | inr ((sealed, rest), n) ↦ elim (Bool-cases (reth.new_payload r sealed).1) [
      | inl valid ↦ rw (n, valid) h
      | inr e ↦ rw (n, e) (rebuild-Held k turn.cached_config turn.reload_time _ h)
    ]
  ]

  settle-Held :
      (k : PrivateKey) (node_height : ℕ) (turn : Turn) (w : World)
      → Held k w.1
      → Held k (settle node_height turn w).1
  settle-Held k nh turn w h = elim (Bool-cases (ltb nh (Chain.height w.1.blockchain))) [
    | inl e ↦ rw e (commit-Held k turn w h)
    | inr e ↦ rw e h
  ]

  step_on-Held :
      (k a : ℕ) (node_height : ℕ) (turn : Turn) (r : reth.State) (incoming : List QbftMessage)
      (o : Option NodeState) (s : NodeState)
      → env.signer_address k ≡ some a
      → s.round + 1 < 2 ^ 64
      → Held k s
      → Ready k s o
      → Gives (step_on node_height turn r incoming o s) (λ x. Held k x.0.1)
  step_on-Held k a nh turn r incoming none s valid small h ready = (_, refl, h)
  step_on-Held k a nh turn r incoming (some t) s valid small h (ht, same) =
      let u = add_messages t incoming turn.time in
      let hu : Held k u = add_messages-Held k t incoming turn.time ht in
      let round = add_messages-round t incoming turn.time in
      let ((v, out), e, (st, _)) =
        node_next-IsStep u turn.time hu.0 (omega (arith, round, same)) (λ _. (k, a, hu.1, valid)) in
      let hv : Held k v = (st.inv, st.key ∙ hu.1) in
      rw e (_, refl, settle-Held k nh turn (r, push_messages v out) (push_messages-Held k v out hv))

  advance_consensus-Held :
      (k a : ℕ) (node_height : ℕ) (turn : Turn) (w : World) (incoming : List QbftMessage)
      → env.signer_address k ≡ some a
      → Builds
      → InSync w
      → w.1.round + 1 < 2 ^ 64
      → Held k w.1
      → Gives (advance_consensus node_height turn w incoming) (λ x. Held k x.0.1)
  unfolding advance_consensus
  advance_consensus-Held k a nh turn w incoming valid builds sync small h =
      let (p, e, ready) = prepare_proposal-Ready k nh turn w builds sync h in
      rw e (step_on-Held k a nh turn p.0 incoming p.1 w.1 valid small h ready)

  -- Round and key along the blocks of answers.
  abbrev pub Follows : PrivateKey → ℕ → NodeState → Type 0
  Follows k n s = Held k s × (s.round ≤ n)

  Imported-Follows :
      (k : PrivateKey) (n : ℕ) {bs : List SignedNewBlock} {w v : World}
      → Imported bs w v
      → Follows k n w.1
      → Follows k n v.1
  unfolding sync_to new_round prune_messages_below_height
  Imported-Follows k n here h = h
  Imported-Follows k n (refused b sealed rest i m d e) h = Imported-Follows k n i h
  Imported-Follows k n (imported {s = s} b sealed rest i m at above d e) h =
      let g = Imported-Follows k n i h in ((sync_to-Inv s b.block g.0.0, g.0.1), omega arith)

  pub handle_block_responses-Follows :
      (k : PrivateKey) (n : ℕ) (w : World) (answers : List BlockResponse)
      → Follows k n w.1
      → Follows k n (handle_block_responses w answers).1
  unfolding handle_block_responses
  handle_block_responses-Follows k n w [] h = h
  handle_block_responses-Follows k n w (a ∷ others) h =
      handle_block_responses-Follows k n (handle_block_response w a).0 others
        (Imported-Follows k n (handle_block_response-Imported w a h.0.0).0 h)

  -- A tick never panics and keeps the node's invariant and key, whatever messages have come in: of a
  -- node that satisfies it, in a round below 2^64 - 1, with a valid key, if the epoch lengths of the
  -- contract, at the blocks of the provider, are above 0, the execution layer builds the blocks it is
  -- asked for, and the model's height is the one after its best block when the answers have been handled.
  pub advance-Held :
      ⦃raw : RawRlp⦄
      → (k a : ℕ) (turn : Turn) (w : World) (messages : List QbftMessage)
      → env.signer_address k ≡ some a
      → HasEpochs (reth.provider w.0)
      → Builds
      → Held k w.1
      → w.1.round + 1 < 2 ^ 64
      → InSync (
          handle_block_responses w
            (gather validate_proposal_with_validator messages).block_responses)
      → Gives (advance turn w messages) (λ x. Held k x.0.1)
  advance-Held k a turn w messages valid epochs builds h small sync =
      let come = gather validate_proposal_with_validator messages in
      let v = handle_block_responses w come.block_responses in
      let f = handle_block_responses-Follows k w.1.round w come.block_responses (h, omega arith) in
      let node_height = u64 (reth.best_block_number w.0 + 1) in
      let highest = highest_newblock_message come.incoming_messages in
      advance-Gives (λ x. Held k x.0.1) turn w messages epochs
        λ fresh answers.
          elim (Bool-cases (is_enabled fresh.debug_catchup_block (whoami w.1) v.1 highest)) [
            | inr e ↦ rw e (_, refl, f.0)
            | inl e ↦
                let (x, g, hx) =
                  advance_consensus-Held k a node_height fresh v come.incoming_messages valid builds
                    sync (omega (arith, f.1)) f.0 in
                rw (e, g) (_, refl, hx)
          ]
