-- ===== src/Driver/Sync/Answers.antt =====
-- What a node answers to a block request.
use rbft.Base.{
  ℕ, zero, suc, ◌+◌, ◌-◌, ◌≤◌, ◌<◌, ◌≡◌, refl, List, [], ◌∷◌, some, true, ltb, arith, length, all,
  Option-cases, inl, inr, eq→==, subst, ap, ◌∙◌, Bool-cases, bind-ok, ok_injective, ok, Option,
  none,
}
use rbft.Types.{SignedNewBlock, BlockRequest, BlockResponse, block_response}
use rbft.Env.{Env, block_new, validate_digest}
use rbft.Message.{check_digest}
use rbft.Driver.Contract.{ChainConfig, get_on_chain_config}
use rbft.Driver.Contract.Total.{HasEpochs, get_on_chain_config-Gives}
use rbft.Driver.Reth.{Reth, SealedBlock}
use rbft.Driver.Sync.{
  signed_with, signed_block_at, collect_blocks, last_height, handle_block_request, respond_with,
}

-- The blocks are of these heights, one after the other.
abbrev pub AreConsecutive : ℕ → List SignedNewBlock → Type 0
AreConsecutive h [] = Unit {0}
AreConsecutive h (b ∷ bs) =
    (b.unsigned_payload.height ≡ h) × (b.block.header.height ≡ h) × AreConsecutive (h + 1) bs

module _ ⦃env : Env⦄ ⦃reth : Reth⦄ where
  -- What the loop has collected.
  abbrev AreBlocks : ℕ → ℕ → List SignedNewBlock → Type 0
  AreBlocks h left bs =
      AreConsecutive h bs × (length bs ≤ left) × (all (λ b. validate_digest b.block) bs ≡ true)

  signed_with-digest :
      (config : ChainConfig) (h : ℕ) (sealed : SealedBlock)
      → validate_digest (signed_with config h sealed).block ≡ true
  unfolding validate_digest block_new
  signed_with-digest config h sealed = eq→== _ _ refl

  collect_blocks-AreBlocks :
      (r : reth.State) (h left : ℕ) (bs : List SignedNewBlock)
      → collect_blocks r h left ≡ ok bs
      → AreBlocks h left bs
  unfolding collect_blocks signed_block_at block_new
  collect_blocks-AreBlocks r h zero bs e =
      subst (AreBlocks h 0) (ok_injective [] bs e) (tt, omega arith, refl)
  collect_blocks-AreBlocks r h (suc left) bs e = elim (Option-cases (reth.block r h)) [
    | inl n ↦
        let none_left : ok [] ≡ ok bs = rw (collect_blocks, n) at e in
        subst (AreBlocks h (suc left)) (ok_injective [] bs none_left) (tt, omega arith, refl)
    | inr (sealed, n) ↦
        let f = rw (collect_blocks, n) at e in
        let (b, g, f') = bind-ok (signed_block_at r h sealed) _ bs f in
        let (config, _, g') = bind-ok (get_on_chain_config (reth.provider r) h) _ b g in
        let (others, k, f'') = bind-ok (collect_blocks r (h + 1) left) _ bs f' in
        let (c, l, d) = collect_blocks-AreBlocks r (h + 1) left others k in
        let digest = signed_with-digest config h sealed in
        subst (AreBlocks h (suc left))
          (ap (λ x. x ∷ others) (ok_injective (signed_with config h sealed) b g')
            ∙ ok_injective (b ∷ others) bs f'')
          ((refl, refl, c), omega (arith, l), ground (arith, digest, d))
  ]

  -- What an answer gives.
  pub record IsAnswer (r : reth.State) (q : BlockRequest) (a : BlockResponse) : Type 0 where
    pub some_blocks : 0 < length a.blocks
    pub few : length a.blocks ≤ 100
    pub consecutive : AreConsecutive q.from_height a.blocks
    pub asked : q.from_height + length a.blocks ≤ q.to_height + 1
    pub known : q.from_height + length a.blocks ≤ reth.best_block_number r + 1
    pub digests : check_digest (block_response a) ≡ true

  respond_with-some :
      (bs : List SignedNewBlock) (a : BlockResponse)
      → respond_with bs ≡ some a
      → (a.blocks ≡ bs) × (0 < length bs)
  respond_with-some [] a e = cc
  respond_with-some (b ∷ bs) a e = (cc, omega arith)

  -- An answer to a block request has 1 to 100 blocks, of consecutive heights from the first height that
  -- is asked for; none is above the last height asked for, or above the best block of the node that
  -- answers; and the digests of all of them pass the check of received messages.
  pub handle_block_request-IsAnswer :
      (r : reth.State) (q : BlockRequest) (a : BlockResponse)
      → handle_block_request r q ≡ ok (some a)
      → IsAnswer r q a
  unfolding handle_block_request last_height check_digest
  handle_block_request-IsAnswer r q a e =
      let n = last_height r q + 1 - q.from_height in
      elim (Bool-cases (ltb (reth.best_block_number r) q.from_height)) [
        | inl above ↦ let f = rw above at e in absurd (cc)
        | inr known ↦
            let f = rw known at e in
            let (bs, g, h) = bind-ok (collect_blocks r q.from_height n) _ (some a) f in
            let (same, pos) = respond_with-some bs a (ok_injective _ _ h) in
            let (c, l, d) = collect_blocks-AreBlocks r q.from_height n bs g in
            rw same (record {
              some_blocks = pos;
              few = omega (arith, l);
              consecutive = c;
              asked = omega (arith, l);
              known = omega (arith, l);
              digests = d;
            })
      ]

  collect_blocks-Gives :
      (r : reth.State) (h left : ℕ)
      → HasEpochs (reth.provider r)
      → (bs : List SignedNewBlock) × (collect_blocks r h left ≡ ok bs)
  unfolding collect_blocks signed_block_at
  collect_blocks-Gives r h zero epochs = ([], refl)
  collect_blocks-Gives r h (suc left) epochs = elim (Option-cases (reth.block r h)) [
    | inl n ↦ rw (collect_blocks, n) ([], refl)
    | inr (sealed, n) ↦
        let (config, e) = get_on_chain_config-Gives (reth.provider r) h epochs in
        let (bs, f) = collect_blocks-Gives r (h + 1) left epochs in
        rw (collect_blocks, n, e, f) (_, refl)
  ]

  -- Answering a request does not panic where the epoch lengths of the contract are above 0.
  pub handle_block_request-Gives :
      (r : reth.State) (q : BlockRequest)
      → HasEpochs (reth.provider r)
      → (o : Option BlockResponse) × (handle_block_request r q ≡ ok o)
  unfolding handle_block_request
  handle_block_request-Gives r q epochs =
      elim (Bool-cases (ltb (reth.best_block_number r) q.from_height)) [
        | inl e ↦ rw e (none, refl)
        | inr e ↦
            let n = last_height r q + 1 - q.from_height in
            let (bs, f) = collect_blocks-Gives r q.from_height n epochs in rw (e, f) (_, refl)
      ]
