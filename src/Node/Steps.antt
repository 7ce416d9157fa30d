-- ===== src/Node/Steps.antt =====
-- Each handler of the normal case against what a handler may do.
use mathlib.Core.List.{reverse}
use rbft.Base.{
  ℕ, ◌≤◌, ◌≡◌, refl, ◌∙◌, Option, none, some, Bool, true, false, inl, inr, arith, Exec, ok, Gives,
  Gives_ok, Option-cases, find_map, ◌&&◌, ltb, find_map-mem, if◌then◌else◌, not,
}
use rbft.Types.{Block, Proposal, SignedNewBlock, QbftMessage, proposal, new_block}
use rbft.Env.{Env}
use rbft.Chain
use rbft.State.{
  NodeState, messages_received, prune_messages_below_height, new_round, get_new_block,
  set_last_prepared_block_and_round, is_the_proposer_for_current_round,
}
use rbft.State.Store.{prune_messages-IsStore}
use rbft.Sign.{sign_proposal, sign_prepare, sign_commit, sign_hash, sign_new_block}
use rbft.Justify.{is_valid_proposal}
use rbft.Justify.Sound.{is_valid_proposal-IsProposed}
use rbft.Seals.{valid_new_block}
use rbft.Seals.Safety.{valid_new_block-IsSealed}
use rbft.Node.Normal.{
  Transition, on_some, propose, upon_block_timeout_ready, commit_quorum, upon_block_timeout,
  accept_proposal, valid_proposal_in, upon_proposal, send_commit, upon_prepare, adopt, commit_block,
  sealed, upon_commit, valid_new_block_in, upon_new_block, has_sent_commit, prepare_quorum,
}
use rbft.Node.Invariant.{Inv, IsStep, Handles, HasKey, stay, store-IsStep, sign_bytes_lem}

module _ ⦃env : Env⦄ (s : NodeState) (v : Inv s) where
  idle : Gives {A = Transition} (ok (s, none)) (Handles s)
  idle = ((s, none), refl, (stay s v, λ e. refl))

  pub on_some-Handles :
      {A : Type 0} (o : Option A) (f : A → Exec Transition)
      → ((a : A) → o ≡ some a → Gives (f a) (Handles s))
      → Gives (on_some o s f) (Handles s)
  on_some-Handles none f h = idle
  on_some-Handles (some a) f h = h a refl

  pub if-Handles :
      (b : Bool) (m : Exec Transition)
      → (b ≡ true → Gives m (Handles s))
      → Gives (if b then m else ok (s, none)) (Handles s)
  if-Handles true m h = h refl
  if-Handles false m h = idle

  -- After a block of this height was proposed.
  proposed-IsStep :
      (p : Proposal)
      → p.proposed_block.header.height ≡ Chain.height s.blockchain
      → IsStep s (record s {
        proposal_accepted_for_current_round = some p;
        time_last_round_start = s.local_time;
      })
  proposed-IsStep p h = record {
    inv = record {
      store = record { sorted = v.store.sorted; indexed = v.store.indexed; slice = v.store.slice };
      prepared = v.prepared;
      proposed = v.proposed;
      accepted = λ q e. ground arith;
    };
    id = refl;
    key = refl;
    configuration = refl;
    clock = refl;
    advance = inl (refl, omega arith);
  }

  propose-Handles :
      (b : Block)
      → b.header.height ≡ Chain.height s.blockchain
      → HasKey s
      → Gives (propose s b) (Handles s)
  unfolding propose sign_proposal sign_prepare
  propose-Handles b h (k, a, e, f) =
      rw (sign_bytes_lem k a, e, f)
        (rw (sign_bytes_lem k a, e, f) (Gives_ok (Handles s) _ (proposed-IsStep _ h, λ n. cc)))

  get_new_block-height :
      (b : Block) → get_new_block s 0 ≡ some b → b.header.height ≡ Chain.height s.blockchain
  unfolding get_new_block
  get_new_block-height b e = elim (Option-cases s.blockchain.proposed_block) [
    | inl n ↦ ground arith
    | inr (c, n) ↦ ground (arith, v.proposed c n)
  ]

  pub upon_block_timeout-Handles : HasKey s → Gives (upon_block_timeout s) (Handles s)
  unfolding upon_block_timeout
  upon_block_timeout-Handles k = if-Handles (upon_block_timeout_ready s) _ λ _.
      on_some-Handles (get_new_block s 0) (propose s)
        λ b e. propose-Handles b (get_new_block-height b e) k

  -- A valid proposal is accepted, and voted for.
  accepted-IsStep :
      (p : Proposal)
      → is_valid_proposal p s ≡ true
      → IsStep s (record s {
        proposal_accepted_for_current_round = some p;
        time_last_round_start =
            if ltb s.round p.proposal_payload.unsigned_payload.round
            then s.local_time
            else s.time_last_round_start;
        round = p.proposal_payload.unsigned_payload.round;
      })
  accepted-IsStep p valid =
      let h = is_valid_proposal-IsProposed p s valid in
      record {
        inv = record {
          store = record {
            sorted = v.store.sorted;
            indexed = v.store.indexed;
            slice = v.store.slice;
          };
          prepared = v.prepared;
          proposed = v.proposed;
          accepted = λ q e. ground (arith, h.block_height);
        };
        id = refl;
        key = refl;
        configuration = refl;
        clock = refl;
        advance = inl (refl, ground (arith, h.in_round));
      }

  accept_proposal-Handles :
      (p : Proposal)
      → is_valid_proposal p s ≡ true
      → HasKey s
      → Gives (accept_proposal s p) (Handles s)
  unfolding accept_proposal sign_prepare
  accept_proposal-Handles p valid (k, a, e, f) =
      rw (sign_bytes_lem k a, e, f)
        (Gives_ok (Handles s) _ (store-IsStep s _ _ (accepted-IsStep p valid), λ n. cc))

  pub valid_proposal_in-some :
      (m : QbftMessage) (p : Proposal)
      → valid_proposal_in s m ≡ some p
      → (m ≡ proposal p) × (is_valid_proposal p s ≡ true)
  unfolding valid_proposal_in
  valid_proposal_in-some m p e = ground arith

  pub upon_proposal-Handles : HasKey s → Gives (upon_proposal s) (Handles s)
  unfolding upon_proposal
  upon_proposal-Handles k =
      on_some-Handles (find_map (valid_proposal_in s) (messages_received s)) (accept_proposal s)
        λ p n.
          let (m, i, e) = find_map-mem (valid_proposal_in s) (messages_received s) p n in
          accept_proposal-Handles p (valid_proposal_in-some m p e).1 k

  prepared-IsStep : (b : Block) (r : ℕ) → IsStep s (set_last_prepared_block_and_round s b r)
  unfolding set_last_prepared_block_and_round
  prepared-IsStep b r = record {
    inv = record {
      store = record { sorted = v.store.sorted; indexed = v.store.indexed; slice = v.store.slice };
      prepared = refl;
      proposed = v.proposed;
      accepted = v.accepted;
    };
    id = refl;
    key = refl;
    configuration = refl;
    clock = refl;
    advance = inl (refl, omega arith);
  }

  send_commit-Handles : (b : Block) → HasKey s → Gives (send_commit s b) (Handles s)
  unfolding send_commit sign_hash sign_commit
  send_commit-Handles b (k, a, e, f) =
      rw (sign_bytes_lem k a, e, f)
        (rw (sign_bytes_lem k a, e, f)
          (Gives_ok (Handles s) _ (store-IsStep s _ _ (prepared-IsStep b s.round), λ n. cc)))

  pub upon_prepare-Handles : HasKey s → Gives (upon_prepare s) (Handles s)
  unfolding upon_prepare
  upon_prepare-Handles k = on_some-Handles s.proposal_accepted_for_current_round _ λ p n.
      if-Handles (prepare_quorum s p.proposed_block && not (has_sent_commit s)) _
        λ _. send_commit-Handles p.proposed_block k

  -- A block that is not below the height becomes the head, and its round 0 begins.
  pub adopt-IsStep :
      (b : Block) → Chain.height s.blockchain ≤ b.header.height → IsStep s (adopt s b)
  unfolding adopt new_round Chain.set_head Chain.set_proposed_block
  adopt-IsStep b h = record {
    inv = record {
      store = record { sorted = v.store.sorted; indexed = v.store.indexed; slice = v.store.slice };
      prepared = refl;
      proposed = λ c e. cc;
      accepted = λ p e. cc;
    };
    id = refl;
    key = refl;
    configuration = refl;
    clock = refl;
    advance = inr (b, refl, h, refl);
  }

  commit_block-Handles :
      (b : Block)
      → Chain.height s.blockchain ≤ b.header.height
      → HasKey s
      → Gives (commit_block s b) (Handles s)
  unfolding commit_block sign_new_block
  commit_block-Handles b h (k, a, e, f) =
      rw (sign_bytes_lem k a, (adopt-IsStep b h).key ∙ e, f)
        (Gives_ok (Handles s) _ (store-IsStep s _ _ (adopt-IsStep b h), λ n. cc))

  pub upon_commit-Handles : HasKey s → Gives (upon_commit s) (Handles s)
  unfolding upon_commit
  upon_commit-Handles k = on_some-Handles s.proposal_accepted_for_current_round _ λ p n.
      if-Handles (is_the_proposer_for_current_round s && commit_quorum s p.proposed_block) _ λ _.
        commit_block-Handles (sealed s p.proposed_block)
          (unfold sealed in omega (arith, v.accepted p n)) k

  pub valid_new_block_in-some :
      (m : QbftMessage) (b : SignedNewBlock)
      → valid_new_block_in s m ≡ some b
      → (m ≡ new_block b) × (valid_new_block s.blockchain b ≡ true)
  unfolding valid_new_block_in
  valid_new_block_in-some m b e = ground arith

  pub prune-IsStep : (t : NodeState) → IsStep s t → IsStep s (prune_messages_below_height t)
  unfolding prune_messages_below_height
  prune-IsStep t h = record {
    inv = record {
      store = prune_messages-IsStore t h.inv.store;
      prepared = h.inv.prepared;
      proposed = h.inv.proposed;
      accepted = h.inv.accepted;
    };
    id = h.id;
    key = h.key;
    configuration = h.configuration;
    clock = h.clock;
    advance = h.advance;
  }

  -- No key is needed for a new block.
  pub upon_new_block-Handles : Gives (upon_new_block s) (Handles s)
  unfolding upon_new_block
  upon_new_block-Handles =
      on_some-Handles (find_map (valid_new_block_in s) (reverse s.messages_received)) _ λ b n.
        let (m, i, e) = find_map-mem (valid_new_block_in s) (reverse s.messages_received) b n in
        let valid = valid_new_block_in-some m b e in
        let checked = valid_new_block-IsSealed s.blockchain b valid.1 in
        Gives_ok (Handles s) _
          (prune-IsStep (adopt s b.block) (adopt-IsStep b.block checked.at_height), λ q. cc)
