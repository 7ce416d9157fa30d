-- ===== src/Driver/Advance/Offered.antt =====
-- The block that a node has ready for its turn is of the current height.
use rbft.Base.{
  ℕ, ◌+◌, ◌≡◌, refl, sym, Option, none, some, true, ◌&&◌, ◌==◌, subst, arith, Gives, inl, inr,
  Bool-cases, Option-cases, is_some,
}
use rbft.Types.{Address, PrivateKey, Block}
use rbft.Env.{Env, block_new}
use rbft.Chain
use rbft.State.{NodeState}
use rbft.Runs.Invariant.{Held, offer-Inv}
use rbft.Driver.Contract.{ChainConfig}
use rbft.Driver.Reth.{Reth, SealedBlock}
use rbft.Driver.Sync.{World}
use rbft.Driver.Advance.{
  next_time, is_due, offer_block, asserted_block, get_proposed_block, prepare_proposal,
}
use rbft.Driver.Commit.{Turn}

module _ ⦃env : Env⦄ where
  -- What there is to step from, if anything.
  abbrev pub Ready : PrivateKey → NodeState → Option NodeState → Type 0
  Ready k s none = Unit {0}
  Ready k s (some t) = Held k t × (t.round ≡ s.round)

  abbrev OfHeight : ℕ → Option Block → Type 0
  OfHeight n none = Unit {0}
  OfHeight n (some b) = b.header.height ≡ n

  offer_block-Ready :
      (k : PrivateKey) (s : NodeState) (node_height : ℕ) (b : Option Block)
      → OfHeight (Chain.height s.blockchain) b
      → Held k s
      → Ready k s (offer_block s node_height b)
  unfolding offer_block
  offer_block-Ready k s nh none at h = tt
  offer_block-Ready k s nh (some b) at (v, key) = elim (Bool-cases (b.header.height == nh)) [
    | inl e ↦ rw e ((offer-Inv s b at v, key), refl)
    | inr e ↦ rw e tt
  ]

module _ ⦃env : Env⦄ ⦃reth : Reth⦄ where
  -- A block that is built has the next number, is for the address given, and decodes again.
  abbrev pub Builds : Type 0
  Builds =
      (r : reth.State) (latest sealed : SealedBlock) (time : ℕ) (a : Address)
      → reth.block r (reth.best_block_number r) ≡ some latest
      → (reth.build_payload r latest time a).1 ≡ some sealed
      → (sealed.number ≡ reth.best_block_number r + 1)
        × (sealed.beneficiary ≡ a)
        × (is_some (reth.decode_sealed (reth.encode_sealed sealed)) ≡ true)

  asserted_block-OfHeight :
      (config : ChainConfig) (w : World) (built : Option SealedBlock) (n : ℕ)
      → ((sealed : SealedBlock)
          → built ≡ some sealed
          → (sealed.number ≡ n)
            × (sealed.beneficiary ≡ w.1.id)
            × (is_some (reth.decode_sealed (reth.encode_sealed sealed)) ≡ true))
      → Gives (asserted_block config w built) (λ b. OfHeight n b.1)
  unfolding block_new
  asserted_block-OfHeight config (r, s) none n h = ((r, none), refl, tt)
  asserted_block-OfHeight config (r, s) (some sealed) n h =
      let (number, beneficiary, decodes) = h sealed refl in
      let passes : (sealed.beneficiary == s.id
            && is_some (reth.decode_sealed (reth.encode_sealed sealed)))
          ≡ true =
        ground arith in
      rw passes (_, refl, number)

  get_proposed_block-OfHeight :
      (config : ChainConfig) (w : World)
      → Builds
      → Gives (get_proposed_block config w) (λ b. OfHeight (reth.best_block_number w.0 + 1) b.1)
  unfolding get_proposed_block
  get_proposed_block-OfHeight config (r, s) builds =
      elim (Option-cases (reth.block r (reth.best_block_number r))) [
        | inl n ↦ rw n ((r, none), refl, tt)
        | inr (latest, n) ↦
            let b = reth.build_payload r latest (next_time config s) s.id in
            rw n (
              asserted_block-OfHeight config (b.0, s) b.1 (reth.best_block_number r + 1)
                (λ sealed e. builds r latest sealed (next_time config s) s.id n e))
      ]

  -- The model's height is the one after the execution layer's best block.
  abbrev pub InSync : World → Type 0
  InSync w = Chain.height w.1.blockchain ≡ reth.best_block_number w.0 + 1

  pub prepare_proposal-Ready :
      (k : PrivateKey) (node_height : ℕ) (turn : Turn) (w : World)
      → Builds
      → InSync w
      → Held k w.1
      → Gives (prepare_proposal node_height turn w) (λ p. Ready k w.1 p.1)
  unfolding prepare_proposal
  prepare_proposal-Ready k nh turn (r, s) builds sync h = elim (Bool-cases (is_due turn nh s)) [
    | inl due ↦
        let (b, e, at) = get_proposed_block-OfHeight turn.cached_config (r, s) builds in
        rw (due, e)
          (_, refl, offer_block-Ready k s nh b.1 (subst (λ n. OfHeight n b.1) (sym sync) at) h)
    | inr early ↦ rw early ((r, some s), refl, (h, refl))
  ]
