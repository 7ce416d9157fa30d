-- ===== src/Runs/Invariant.antt =====
-- The invariant along every run.
use rbft.Base.{
  ℕ, ◌+◌, ◌^◌, ◌<◌, ◌≡◌, refl, sym, subst, ◌∙◌, List, [], ◌∷◌, Option, none, some, arith, ok,
}
use rbft.Types.{Address, PrivateKey, Block, QbftMessage, QbftMessageWithRecipient}
use rbft.Env.{Env}
use rbft.Chain.{Blockchain}
use rbft.Chain
use rbft.Chain.Prune.{height-prune, prune_keeps}
use rbft.Config.{Configuration}
use rbft.State.{
  NodeState, has_key, add_message, add_each, add_messages, insert_message_sorted,
  prune_messages_below_height,
}
use rbft.State
use rbft.State.Intake.{add_message_cases}
use rbft.Node.{node_next}
use rbft.Node.Invariant.{Inv, stay, store-IsStep}
use rbft.Node.Steps.{prune-IsStep}
use rbft.Runs.{Next, Reach, node_next-IsStep}

module _ ⦃env : Env⦄ where
  -- The invariant, with the key that the node has.
  abbrev pub Held : PrivateKey → NodeState → Type 0
  Held k s = Inv s × (s.private_key ≡ some k)

  pub add_message-Held :
      (k : PrivateKey) (vs : List Address) (s : NodeState) (m : QbftMessage)
      → Held k s
      → Held k (add_message vs s m)
  add_message-Held k vs s m (v, e) =
      add_message_cases (Held k) vs s m (v, e)
        (λ a h. let st = store-IsStep s s m (stay s v) in (st.inv, st.key ∙ e))

  add_each-Held :
      (k : PrivateKey) (vs : List Address) (ms : List QbftMessage) (s : NodeState)
      → Held k s
      → Held k (add_each vs ms s)
  unfolding add_each
  add_each-Held k vs [] s h = h
  add_each-Held k vs (m ∷ ms) s h =
      add_each-Held k vs ms (add_message vs s m) (add_message-Held k vs s m h)

  set_chain-Inv :
      (s : NodeState) (bc : Blockchain)
      → Inv s
      → ((b : Block) → bc.proposed_block ≡ some b → b.header.height ≡ Chain.height bc)
      → Chain.height bc ≡ Chain.height s.blockchain
      → Inv (record s { blockchain = bc })
  set_chain-Inv s bc v p e = record {
    store = record { sorted = v.store.sorted; indexed = v.store.indexed; slice = v.store.slice };
    prepared = v.prepared;
    proposed = p;
    accepted = λ q h. v.accepted q h ∙ sym e;
  }

  pub add_messages-Held :
      (k : PrivateKey) (s : NodeState) (incoming : List QbftMessage) (time : ℕ)
      → Held k s
      → Held k (add_messages s incoming time)
  unfolding add_messages
  add_messages-Held k s incoming time (v, e) =
      let u : NodeState = record s { local_time = time } in
      let uv : Inv u = record {
        store = record {
          sorted = v.store.sorted;
          indexed = v.store.indexed;
          slice = v.store.slice;
        };
        prepared = v.prepared;
        proposed = v.proposed;
        accepted = v.accepted;
      } in
      let t = add_each (Chain.validators s.blockchain) incoming u in
      let h = add_each-Held k (Chain.validators s.blockchain) incoming u (uv, e) in
      let q = prune-IsStep t h.0 t (stay t h.0) in
      let bc = (prune_messages_below_height t).blockchain in
      (
        set_chain-Inv (prune_messages_below_height t) (Chain.prune bc) q.inv
            (λ b f. q.inv.proposed b (sym (prune_keeps bc).1 ∙ f) ∙ sym (height-prune bc))
            (height-prune bc),
        q.key ∙ h.1,
      )

  pub offer-Inv :
      (s : NodeState) (b : Block)
      → b.header.height ≡ Chain.height s.blockchain
      → Inv s
      → Inv (record s { blockchain = Chain.set_proposed_block s.blockchain (some b) })
  unfolding Chain.set_proposed_block Chain.height
  offer-Inv s b e v =
      set_chain-Inv s (record s.blockchain { proposed_block = some b }) v (λ c f. ground arith) refl

  pub Next-Held :
      (k : PrivateKey) (a : Address)
      → env.signer_address k ≡ some a
      → {s t : NodeState} → Next s t
      → Held k s
      → Held k t
  Next-Held k a valid {s} (Next.receive incoming time) h = add_messages-Held k s incoming time h
  Next-Held k a valid {s} (Next.step time t out small e) (v, key) =
      let (r, f, (h, _)) = node_next-IsStep s time v small (λ _. (k, a, key, valid)) in
      let same : r.0 ≡ t = ground arith in
      let held : Held k r.0 = (h.inv, h.key ∙ key) in subst (Held k) same held
  Next-Held k a valid {s} (Next.offer b e) (v, key) = (offer-Inv s b e v, key)

  Reach-Held :
      (k : PrivateKey) (a : Address)
      → env.signer_address k ≡ some a
      → {s t : NodeState} → Held k s
      → Reach s t
      → Held k t
  Reach-Held k a valid h Reach.here = h
  Reach-Held k a valid h (Reach.next r n) = Next-Held k a valid n (Reach-Held k a valid h r)

  pub new-Inv :
      (bc : Blockchain) (c : Configuration) (id : Address) (key : Option PrivateKey) (time : ℕ)
      → bc.proposed_block ≡ none
      → Inv (State.new bc c id key time)
  unfolding State.new
  new-Inv bc c id key time p = record {
    store = record { sorted = tt; indexed = λ k. refl; slice = omega arith };
    prepared = refl;
    proposed = λ b e. cc;
    accepted = λ q e. cc;
  }

  -- From a new node with a valid key and no block to propose, after any calls in any order (messages of
  -- any content, steps in rounds below 2^64 - 1, blocks of the current height to propose): the
  -- invariant holds, and the next step returns and keeps it.
  pub run-Inv :
      (bc : Blockchain) (c : Configuration) (id k a : ℕ) (start time : ℕ) (s : NodeState)
      → bc.proposed_block ≡ none
      → env.signer_address k ≡ some a
      → Reach (State.new bc c id (some k) start) s
      → s.round + 1 < 2 ^ 64
      → Inv s
        × ((t : NodeState) × (out : List QbftMessageWithRecipient) × (node_next s time
              ≡ ok (t, out))
            × Inv t)
  unfolding State.new
  run-Inv bc c id k a start time s p valid reach small =
      let h =
        Reach-Held k a valid (unfold State.new in (new-Inv bc c id (some k) start p, refl)) reach in
      let (r, e, (st, _)) = node_next-IsStep s time h.0 small (λ _. (k, a, h.1, valid)) in
      (h.0, (r.0, r.1, e, st.inv))
