-- ===== src/Driver/Advance/InStep.antt =====
-- A tick keeps the model in step with the execution layer.
use rbft.Base.{
  bind-ok, ℕ, ◌+◌, ◌≤◌, ◌<◌, ◌^◌, ◌≡◌, refl, sym, ap, ◌∙◌, subst, Option, none, some, Bool, true,
  false, ◌==◌, ltb, arith, ok, ◌⊎◌, inl, inr, Bool-cases, Option-cases, is_some,
}
use native.Mathlib.Decide.{dec_le}
use rbft.Types.{Address, Block, Bytes}
use rbft.Env.{Env, block_new}
use rbft.Chain.{Blockchain}
use rbft.Chain
use rbft.State.{NodeState, insert_message_sorted}
use rbft.State
use rbft.Driver.Contract.{ChainConfig}
use rbft.Driver.Reth.{Reth, SealedBlock}
use rbft.Driver.Sync.{World}
use rbft.Driver.Advance.{
  next_time, is_due, offer_block, asserted_block, build_on, get_proposed_block, prepare_proposal,
  settle,
}
use rbft.Driver.Commit.{
  Turn, rebuild_node_state_from_chain, commit_block_to_reth_blockchain, state_or,
}
use rbft.Driver.Advance.Offered.{InSync}

module _ ⦃reth : Reth⦄ where
  -- The best block is there and decodes; building a block and refusing one leave it, and a block that is
  -- found valid is the best one if a fork choice update to it is answered as valid.
  pub record MovesTip : Type 0 where
    pub present :
        (r : reth.State)
        → (latest : SealedBlock) × (reth.block r (reth.best_block_number r) ≡ some latest)
          × (is_some (reth.decode_sealed (reth.encode_sealed latest)) ≡ true)
    pub built :
        (r : reth.State) (latest : SealedBlock) (time : ℕ) (a : Address)
        → reth.best_block_number (reth.build_payload r latest time a).0 ≡ reth.best_block_number r
    pub refused :
        (r : reth.State) (sealed : SealedBlock)
        → (reth.new_payload r sealed).1 ≡ false
        → reth.best_block_number (reth.new_payload r sealed).0 ≡ reth.best_block_number r
    pub taken :
        (r : reth.State) (sealed : SealedBlock)
        → (reth.new_payload r sealed).1 ≡ true
        → (reth.fork_choice_updated (reth.new_payload r sealed).0 sealed.hash).1 ≡ true
        → reth.best_block_number
            (reth.fork_choice_updated (reth.new_payload r sealed).0 sealed.hash).0
          ≡ sealed.number

  abbrev is_number : ℕ → Option (SealedBlock × Bytes) → Bool
  is_number n none = false
  is_number n (some (sealed, rest)) = sealed.number == n

  -- The body decodes to a block of the height of the header.
  unfoldable pub is_own_number : Block → Bool
  is_own_number b = is_number b.header.height (reth.decode_sealed b.body)

module _ ⦃env : Env⦄ ⦃reth : Reth⦄ where
  -- The engine found the head of the model valid, but did not answer the fork choice update to it as
  -- valid.
  abbrev pub IsUnmoved : World → Type 0
  IsUnmoved w =
      (r : reth.State) × (sealed : SealedBlock) × (rest : Bytes) × (reth.decode_sealed
          w.1.blockchain.head.body
        ≡ some (sealed, rest))
      × ((reth.new_payload r sealed).1 ≡ true)
      × ((reth.fork_choice_updated (reth.new_payload r sealed).0 sealed.hash).1 ≡ false)
      × (w.0 ≡ (reth.fork_choice_updated (reth.new_payload r sealed).0 sealed.hash).0)

  -- The model's height is the one after the best block; or else the fork choice update to its head was
  -- not valid, or the body of its head is no block of the head's height, or that is the largest height.
  abbrev pub InStep : World → Type 0
  InStep w =
      InSync w
      ⊎ (is_own_number w.1.blockchain.head ≡ false)
      ⊎ (2 ^ 64 ≤ w.1.blockchain.head.header.height + 1)
      ⊎ IsUnmoved w

  rebuild-InSync :
      (moves : MovesTip) (config : ChainConfig) (now : ℕ) (r : reth.State) (s : NodeState)
      → reth.best_block_number r + 1 < 2 ^ 64
      → InSync (r, state_or s (rebuild_node_state_from_chain config now (r, s)))
  unfolding rebuild_node_state_from_chain State.new Chain.height block_new
  rebuild-InSync moves config now r s small =
      let (latest, n, d) = moves.present r in rw (n, d) (omega arith)

  commit-InStep :
      (moves : MovesTip) (turn : Turn) (r : reth.State) (s : NodeState)
      → reth.best_block_number r + 1 < 2 ^ 64
      → InStep (commit_block_to_reth_blockchain turn (r, s))
  unfolding commit_block_to_reth_blockchain is_own_number Chain.height
  commit-InStep moves turn r s small =
      elim (Option-cases (reth.decode_sealed s.blockchain.head.body)) [
        | inl n ↦ rw n (inr (inl (rw n refl)))
        | inr ((sealed, rest), n) ↦ elim (Bool-cases (reth.new_payload r sealed).1) [
          | inr e ↦
              rw (n, e)
                (inl (
                  rebuild-InSync moves turn.cached_config turn.reload_time
                    (reth.new_payload r sealed).0 s (omega (arith, moves.refused r sealed e))))
          | inl e ↦ elim (Bool-cases (sealed.number == s.blockchain.head.header.height)) [
            | inr other ↦ rw (n, e) (inr (inl (rw n other)))
            | inl own ↦ elim (dec_le (2 ^ 64) (s.blockchain.head.header.height + 1)) [
              | yes large ↦ rw (n, e) (inr (inr (inl large)))
              | no l ↦
                  let fcu = reth.fork_choice_updated (reth.new_payload r sealed).0 sealed.hash in
                  elim (Bool-cases fcu.1) [
                    | inr stays ↦ rw (n, e) (inr (inr (inr (r, sealed, rest, n, e, stays, refl))))
                    | inl moved ↦
                        let tip = moves.taken r sealed e moved in
                        let same : sealed.number ≡ s.blockchain.head.header.height = ground arith in
                        rw (n, e) (inl (omega (arith, tip, same)))
                  ]
            ]
          ]
        ]
      ]

  pub settle-InStep :
      (moves : MovesTip) (node_height : ℕ) (turn : Turn) (r : reth.State) (s : NodeState)
      → reth.best_block_number r + 1 < 2 ^ 64
      → node_height ≤ reth.best_block_number r + 1
      → InSync (r, s) ⊎ (reth.best_block_number r + 1 ≤ s.blockchain.head.header.height)
      → InStep (settle node_height turn (r, s))
  unfolding Chain.height
  settle-InStep moves nh turn r s small l (inl sync) =
      elim (Bool-cases (ltb nh (Chain.height s.blockchain))) [
        | inl e ↦ rw e (commit-InStep moves turn r s small)
        | inr e ↦ rw e (inl sync)
      ]
  settle-InStep moves nh turn r s small l (inr new) =
      elim (Bool-cases (ltb nh (Chain.height s.blockchain))) [
        | inl e ↦ rw e (commit-InStep moves turn r s small)
        | inr e ↦
            let low : Chain.height s.blockchain ≤ nh = ground arith in
            rw e (inr (inr (inl (omega arith))))
      ]

  asserted_block-tip :
      (config : ChainConfig) (w : World) (built : Option SealedBlock)
      (b : reth.State × Option Block)
      → asserted_block config w built ≡ ok b
      → b.0 ≡ w.0
  asserted_block-tip config (r, s) none b e = cc
  asserted_block-tip config (r, s) (some sealed) b e = ground arith

  build_on-tip :
      (moves : MovesTip) (config : ChainConfig) (w : World) (o : Option SealedBlock)
      (b : reth.State × Option Block)
      → build_on config w o ≡ ok b
      → reth.best_block_number b.0 ≡ reth.best_block_number w.0
  build_on-tip moves config (r, s) none b e =
      let same : b.0 ≡ r = cc in ap reth.best_block_number same
  build_on-tip moves config (r, s) (some latest) b e =
      let built = reth.build_payload r latest (next_time config s) s.id in
      ap reth.best_block_number (asserted_block-tip config (built.0, s) built.1 b e)
      ∙ moves.built r latest (next_time config s) s.id

  -- The block to propose leaves the head alone.
  abbrev pub SameHead : NodeState → Option NodeState → Type 0
  SameHead s none = Unit {0}
  SameHead s (some t) = t.blockchain.head ≡ s.blockchain.head

  offer_block-SameHead :
      (s : NodeState) (node_height : ℕ) (b : Option Block)
      → SameHead s (offer_block s node_height b)
  unfolding offer_block Chain.set_proposed_block
  offer_block-SameHead s nh none = tt
  offer_block-SameHead s nh (some b) = elim (Bool-cases (b.header.height == nh)) [
    | inl e ↦ rw e refl
    | inr e ↦ rw e tt
  ]

  pub prepare_proposal-tip :
      (moves : MovesTip) (node_height : ℕ) (turn : Turn) (w : World)
      (p : reth.State × Option NodeState)
      → prepare_proposal node_height turn w ≡ ok p
      → (reth.best_block_number p.0 ≡ reth.best_block_number w.0) × SameHead w.1 p.1
  unfolding prepare_proposal get_proposed_block
  prepare_proposal-tip moves nh turn (r, s) p e = elim (Bool-cases (is_due turn nh s)) [
    | inr early ↦
        let f = rw early at e in
        let same : (r, some s) ≡ p = cc in
        (ap (λ x. reth.best_block_number x.0) (sym same), subst (λ x. SameHead s x.1) same refl)
    | inl due ↦
        let (b, g, f) =
          bind-ok (get_proposed_block turn.cached_config (r, s))
            (λ b. ok (b.0, offer_block s nh b.1)) p (rw due at e) in
        let same : (b.0, offer_block s nh b.1) ≡ p = cc in
        (
          ap (λ x. reth.best_block_number x.0) (sym same)
              ∙ build_on-tip moves turn.cached_config (r, s) _ b g,
          subst (λ x. SameHead s x.1) same (offer_block-SameHead s nh b.1),
        )
  ]
