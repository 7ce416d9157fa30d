-- ===== src/Node/Invariant.antt =====
-- What holds of a node between two calls, and what a handler may change.
use rbft.Base.{◌≤◌, ◌≡◌, refl, ◌∷◌, none, some, ◌⊎◌, inl, inr, arith, ok, is_none, Bool-cases}
use rbft.Types.{Address, PrivateKey, Bytes, Block, Proposal, QbftMessage}
use rbft.Env.{Env, sign_message}
use rbft.Chain.{Blockchain}
use rbft.Chain
use rbft.Sign.{sign_bytes}
use rbft.Message.{components}
use rbft.State.{NodeState, insert_message_sorted, has_key}
use rbft.State.Store.{IsStore, insert_message_sorted-IsStore}
use rbft.Node.Normal.{Transition}

-- The store is well-formed, a prepared round goes with a prepared block, and a block that is to be
-- proposed, or is accepted, is of the current height.
pub record Inv (s : NodeState) : Type 0 where
  pub store : IsStore s
  pub prepared : is_none s.last_prepared_round ≡ is_none s.last_prepared_block
  pub proposed :
      (b : Block)
      → s.blockchain.proposed_block ≡ some b
      → b.header.height ≡ Chain.height s.blockchain
  pub accepted :
      (p : Proposal)
      → s.proposal_accepted_for_current_round ≡ some p
      → p.proposed_block.header.height ≡ Chain.height s.blockchain

-- The chain and round of t are those of s, or later: a later round at this height, or round 0 over a
-- new head that is not below the height.
abbrev pub Advance : NodeState → NodeState → Type 0
Advance s t =
    ((t.blockchain ≡ s.blockchain) × (s.round ≤ t.round))
    ⊎ ((b : Block) × (t.blockchain ≡ record {
      proposed_block = none;
      head = b;
      older = s.blockchain.head ∷ s.blockchain.older;
    })
        × (Chain.height s.blockchain ≤ b.header.height)
        × (t.round ≡ 0))

-- What every handler does: it keeps the invariant, who the node is, its configuration and clock, and
-- it does not go back.
pub record IsStep (s : NodeState) (t : NodeState) : Type 0 where
  pub inv : Inv t
  pub id : t.id ≡ s.id
  pub key : t.private_key ≡ s.private_key
  pub configuration : t.configuration ≡ s.configuration
  pub clock : t.local_time ≡ s.local_time
  pub advance : Advance s t

-- A handler that does not fire leaves the state as it was.
abbrev pub Idle : NodeState → Transition → Type 0
Idle s r = r.1 ≡ none → r.0 ≡ s

abbrev pub Handles : NodeState → Transition → Type 0
Handles s r = IsStep s r.0 × Idle s r

pub stay : (s : NodeState) → Inv s → IsStep s s
stay s v = record {
  inv = v;
  id = refl;
  key = refl;
  configuration = refl;
  clock = refl;
  advance = inl (refl, omega arith);
}

-- A message stored on the way out.
pub store-IsStep :
    (s t : NodeState) (m : QbftMessage) → IsStep s t → IsStep s (insert_message_sorted t m)
unfolding insert_message_sorted
store-IsStep s t m h = record {
  inv = record {
    store = insert_message_sorted-IsStore t m h.inv.store;
    prepared = ground (arith, h.inv.prepared);
    proposed = λ b e. ground (arith, h.inv.proposed b);
    accepted = λ p e. ground (arith, h.inv.accepted p);
  };
  id = ground (arith, h.id);
  key = ground (arith, h.key);
  configuration = ground (arith, h.configuration);
  clock = ground (arith, h.clock);
  advance = elim (Bool-cases (has_key t.message_keys (components m))) [
    | inl e ↦ rw e h.advance
    | inr e ↦ rw e h.advance
  ];
}

module _ ⦃env : Env⦄ where
  -- The node has a private key, which is a valid one.
  abbrev pub HasKey : NodeState → Type 0
  HasKey s =
      (k : PrivateKey) × (a : Address) × (s.private_key ≡ some k) × (env.signer_address k ≡ some a)

  -- With its key k, whose address is a, a node signs whatever it is given.
  pub sign_bytes_lem :
      (k : PrivateKey) (a : Address) (bytes : Bytes) (s : NodeState)
      → s.private_key ≡ some k
      → env.signer_address k ≡ some a
      → sign_bytes bytes s ≡ ok (record { author = a; signature = env.sign_message_sync k bytes })
  unfolding sign_bytes sign_message
  sign_bytes_lem k a bytes s e f = rw (e, f)
