-- ===== src/Driver/Sync/Imports.antt =====
-- What a node makes of the blocks of an answer.
use mathlib.Core.List.{Memᴰ}
use rbft.Base.{
  Bool, ℕ, ◌+◌, ◌≤◌, ◌<◌, ◌^◌, ◌≡◌, refl, sym, ap, subst, ◌∙◌, List, [], ◌∷◌, none, some, true,
  false, ◌==◌, leb, u64, arith, length, Bool-cases, Option-cases, inl, inr,
}
use rbft.Types.{Block, Bytes, SignedNewBlock, BlockResponse}
use rbft.Chain
use rbft.State.{NodeState, new_round, prune_messages_below_height}
use rbft.State.Store.{IsStore, prune_messages-IsStore}
use rbft.Node.Invariant.{Inv}
use rbft.Driver.Reth.{Reth, SealedBlock}
use rbft.Driver.Sync.{
  sync_to, World, import_sealed, import_block, import_blocks, import_answer, handle_block_response,
}
use rbft.Driver.Sync.Answers.{AreConsecutive}

pub sync_to-Inv : (s : NodeState) (b : Block) → Inv s → Inv (sync_to s b)
unfolding sync_to new_round prune_messages_below_height Chain.set_head Chain.set_proposed_block
sync_to-Inv s b v =
    let t : NodeState = record s {
      blockchain = record {
        proposed_block = none;
        head = b;
        older = s.blockchain.head ∷ s.blockchain.older;
      };
    } in
    let w : IsStore t = record {
      sorted = v.store.sorted;
      indexed = v.store.indexed;
      slice = v.store.slice;
    } in
    let q = prune_messages-IsStore t w in
    record {
      store = record { sorted = q.sorted; indexed = q.indexed; slice = q.slice };
      prepared = refl;
      proposed = λ c e. cc;
      accepted = λ p e. cc;
    }

sync_to-head : (s : NodeState) (b : Block) → (sync_to s b).blockchain.head ≡ b
unfolding sync_to new_round prune_messages_below_height Chain.set_head Chain.set_proposed_block
sync_to-head s b = refl

module _ ⦃reth : Reth⦄ where
  -- How the two states change together, by blocks of an answer: the engine may refuse a block, which
  -- changes its own state only; or a block, to which the answer gives the height after the best one, is
  -- decoded, is found valid and put to the engine as the tip, and is the model's head.
  pub data Imported (bs : List SignedNewBlock) (w : World) : World → Type 0 where
    here : Imported bs w w
    refused :
        {r : reth.State} {s : NodeState} (b : SignedNewBlock) (sealed : SealedBlock) (rest : Bytes)
        → Imported bs w (r, s)
        → Memᴰ b bs
        → reth.decode_sealed b.block.body ≡ some (sealed, rest)
        → (reth.new_payload r sealed).1 ≡ false
        → Imported bs w ((reth.new_payload r sealed).0, s)
    imported :
        {r : reth.State} {s : NodeState} (b : SignedNewBlock) (sealed : SealedBlock) (rest : Bytes)
        → Imported bs w (r, s)
        → Memᴰ b bs
        → b.unsigned_payload.height ≡ u64 (reth.best_block_number r + 1)
        → reth.best_block_number w.0 < b.unsigned_payload.height
        → reth.decode_sealed b.block.body ≡ some (sealed, rest)
        → (reth.new_payload r sealed).1 ≡ true
        → Imported bs w (
          (reth.fork_choice_updated (reth.new_payload r sealed).0 sealed.hash).0,
          sync_to s b.block,
        )

  Imported-Inv : {bs : List SignedNewBlock} {w v : World} → Inv w.1 → Imported bs w v → Inv v.1
  Imported-Inv h here = h
  Imported-Inv h (refused b sealed rest i m d e) = Imported-Inv h i
  Imported-Inv h (imported b sealed rest i m n l d e) = sync_to-Inv _ b.block (Imported-Inv h i)

  import_sealed-Imported :
      (bs : List SignedNewBlock) (w v : World) (b : SignedNewBlock) (sealed : SealedBlock)
      (rest : Bytes)
      → Imported bs w v
      → Memᴰ b bs
      → b.unsigned_payload.height ≡ u64 (reth.best_block_number v.0 + 1)
      → reth.best_block_number w.0 < b.unsigned_payload.height
      → reth.decode_sealed b.block.body ≡ some (sealed, rest)
      → Imported bs w (import_sealed v b.block sealed).0
  import_sealed-Imported bs w (r, s) b sealed rest i m n l d =
      elim (Bool-cases (reth.new_payload r sealed).1) [
        | inl e ↦ rw e (imported b sealed rest i m n l d e)
        | inr e ↦ rw e (refused b sealed rest i m d e)
      ]

  import_block-Imported :
      (bs : List SignedNewBlock) (w v : World) (b : SignedNewBlock)
      → Imported bs w v
      → Memᴰ b bs
      → Imported bs w (import_block (reth.best_block_number w.0) v b).0
  unfolding import_block
  import_block-Imported bs w v b i m =
      elim (Bool-cases (leb b.unsigned_payload.height (reth.best_block_number w.0))) [
        | inl old ↦ rw old i
        | inr new ↦
            elim (Bool-cases (b.unsigned_payload.height == u64 (reth.best_block_number v.0 + 1))) [
              | inr other ↦ rw (new, other) i
              | inl next ↦ elim (Option-cases (reth.decode_sealed b.block.body)) [
                | inl n ↦ rw (new, next, n) i
                | inr ((sealed, rest), d) ↦
                    let at : b.unsigned_payload.height ≡ u64 (reth.best_block_number v.0 + 1) =
                      ground arith in
                    let above : reth.best_block_number w.0 < b.unsigned_payload.height =
                      ground arith in
                    rw (new, next, d) (import_sealed-Imported bs w v b sealed rest i m at above d)
              ]
            ]
      ]

  import_blocks-Imported :
      (all_blocks : List SignedNewBlock) (w v : World) (bs : List SignedNewBlock)
      → ((b : SignedNewBlock) → Memᴰ b bs → Memᴰ b all_blocks)
      → Imported all_blocks w v
      → Imported all_blocks w (import_blocks (reth.best_block_number w.0) v bs).0
  unfolding import_blocks
  import_blocks-Imported all_blocks w v [] within i = i
  import_blocks-Imported all_blocks w v (b ∷ bs) within i =
      let nh = reth.best_block_number w.0 in
      let j = import_block-Imported all_blocks w v b i (within b (Memᴰ.head refl)) in
      elim (Bool-cases (import_block nh v b).1) [
        | inl e ↦
            rw (import_blocks, e)
              (import_blocks-Imported all_blocks w (import_block nh v b).0 bs
                (λ c m. within c (Memᴰ.tail m)) j)
        | inr e ↦ rw (import_blocks, e) j
      ]

  import_answer-Imported :
      (w : World) (bs : List SignedNewBlock) → Imported bs w (import_answer w bs).0
  import_answer-Imported w [] = here
  import_answer-Imported w (b ∷ bs) = import_blocks-Imported (b ∷ bs) w w (b ∷ bs) (λ c m. m) here

  -- Whatever an answer holds, the execution layer and the model change only by blocks of the answer, and
  -- only together: a block that the engine refuses leaves the model alone; one that it finds valid
  -- becomes the head of the model and is put to the engine as the tip, and its `unsigned_payload` has the
  -- height after the best block at the time, above the best block at the start. And the invariant of
  -- the node is kept. Nothing is said of the height in a block's header, or of the number of the decoded
  -- block.
  pub handle_block_response-Imported :
      (w : World) (a : BlockResponse)
      → Inv w.1
      → Imported a.blocks w (handle_block_response w a).0 × Inv (handle_block_response w a).0.1
  unfolding handle_block_response
  handle_block_response-Imported w a h =
      let i = import_answer-Imported w a.blocks in (i, Imported-Inv h i)

  -- The engine decodes each block of the list, finds it valid after those before it, and has it as its
  -- best block once it is made the tip.
  abbrev pub TakesEach : reth.State → List SignedNewBlock → Type 0
  TakesEach r [] = Unit {0}
  TakesEach r (b ∷ bs) =
      (sealed : SealedBlock) × (rest : Bytes) × (reth.decode_sealed b.block.body
        ≡ some (sealed, rest))
      × ((reth.new_payload r sealed).1 ≡ true)
      × (reth.best_block_number
            (reth.fork_choice_updated (reth.new_payload r sealed).0 sealed.hash).0
          ≡ b.unsigned_payload.height)
      × TakesEach (reth.fork_choice_updated (reth.new_payload r sealed).0 sealed.hash).0 bs

  -- The last of some blocks.
  abbrev pub last_block : Block → List SignedNewBlock → Block
  last_block b [] = b
  last_block b (c ∷ cs) = last_block c.block cs

  import_block-next :
      (nh : ℕ) (r : reth.State) (s : NodeState) (b : SignedNewBlock) (sealed : SealedBlock)
      (rest : Bytes)
      → nh ≤ reth.best_block_number r
      → reth.best_block_number r + 1 < 2 ^ 64
      → b.unsigned_payload.height ≡ reth.best_block_number r + 1
      → reth.decode_sealed b.block.body ≡ some (sealed, rest)
      → (reth.new_payload r sealed).1 ≡ true
      → import_block nh (r, s) b ≡ (
        ((reth.fork_choice_updated (reth.new_payload r sealed).0 sealed.hash).0, sync_to s b.block),
        true,
      )
  unfolding import_block
  import_block-next nh r s b sealed rest l small h d e =
      let new : leb b.unsigned_payload.height nh ≡ false = ground arith in
      let next : (b.unsigned_payload.height == u64 (reth.best_block_number r + 1)) ≡ true =
        ground arith in
      rw (new, next, d, e)

  -- Every block was imported.
  abbrev IsCaughtUp : reth.State → NodeState → List SignedNewBlock → World × Bool → Type 0
  IsCaughtUp r s bs after =
      (after.1 ≡ true)
      × (reth.best_block_number after.0.0 ≡ reth.best_block_number r + length bs)
      × (after.0.1.blockchain.head ≡ last_block s.blockchain.head bs)

  import_blocks-all :
      (nh : ℕ) (r : reth.State) (s : NodeState) (bs : List SignedNewBlock)
      → nh ≤ reth.best_block_number r
      → reth.best_block_number r + length bs < 2 ^ 64
      → AreConsecutive (reth.best_block_number r + 1) bs
      → TakesEach r bs
      → IsCaughtUp r s bs (import_blocks nh (r, s) bs)
  unfolding import_blocks
  import_blocks-all nh r s [] l small c d = (refl, omega arith, refl)
  import_blocks-all nh r s (b ∷ bs) l small c (sealed, rest, e, valid, tip, ds) =
      let r' = (reth.fork_choice_updated (reth.new_payload r sealed).0 sealed.hash).0 in
      let first = import_block-next nh r s b sealed rest l (omega arith) c.0 e valid in
      let moved : reth.best_block_number r' ≡ reth.best_block_number r + 1 = tip ∙ c.0 in
      let later = subst (λ k. AreConsecutive (k + 1) bs) (sym moved) c.2 in
      let (done, best, head) =
        import_blocks-all nh r' (sync_to s b.block) bs (omega (arith, moved)) (omega (arith, moved))
          later ds in
      rw (import_blocks, ap (λ x. x.1) first, ap (λ x. x.0) first)
        (
          done,
          omega (arith, best, moved),
          head ∙ ap (λ h. last_block h bs) (sync_to-head s b.block),
        )

  import_answer-all :
      (r : reth.State) (s : NodeState) (bs : List SignedNewBlock)
      → 0 < length bs
      → reth.best_block_number r + length bs < 2 ^ 64
      → AreConsecutive (reth.best_block_number r + 1) bs
      → TakesEach r bs
      → IsCaughtUp r s bs (import_answer (r, s) bs)
  import_answer-all r s [] pos small c d = absurd (omega arith)
  import_answer-all r s (b ∷ bs) pos small c d =
      import_blocks-all (reth.best_block_number r) r s (b ∷ bs) (omega arith) small c d

  -- If the blocks of an answer are of consecutive heights from the one after the best block (as those of
  -- an answer are from the height that was asked for), below 2^64, and the engine decodes each, finds it
  -- valid after those before it and takes it for its best block, then all are imported: the best block is
  -- higher by their number, and the last of them is the model's head.
  pub handle_block_response-catches_up :
      (r : reth.State) (s : NodeState) (a : BlockResponse)
      → 0 < length a.blocks
      → reth.best_block_number r + length a.blocks < 2 ^ 64
      → AreConsecutive (reth.best_block_number r + 1) a.blocks
      → TakesEach r a.blocks
      → ((handle_block_response (r, s) a).1 ≡ true)
        × (reth.best_block_number (handle_block_response (r, s) a).0.0
            ≡ reth.best_block_number r + length a.blocks)
        × ((handle_block_response (r, s) a).0.1.blockchain.head
            ≡ last_block s.blockchain.head a.blocks)
  unfolding handle_block_response
  handle_block_response-catches_up r s a pos small c d =
      import_answer-all r s a.blocks pos small c d
