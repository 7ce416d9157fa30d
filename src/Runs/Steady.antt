-- ===== src/Runs/Steady.antt =====
-- The proposal that a node has accepted, and the commits that it sends: one handler at a time.
use rbft.Base.{
  ℕ, ◌+◌, ◌^◌, ◌<◌, ◌≡◌, refl, ◌⊎◌, inl, inr, List, [], ◌∷◌, Option, none, some, Bool, true, false,
  arith, Exec, ok, Gives, Gives_ok, Bool-cases, filter_map, if◌then◌else◌,
}
use rbft.Types.{
  Address, PrivateKey, Block, Proposal, UnsignedCommit, SignedCommit, QbftMessage, commit,
  QbftMessageWithRecipient,
}
use rbft.Env.{Env, digest}
use rbft.Chain
use rbft.Message.{components}
use rbft.State.{NodeState, has_key, insert_message_sorted}
use rbft.Sign.{hash_block_for_commit_seal}
use rbft.Node.{sent}
use rbft.Node.Normal.{Transition, on_some}

-- The head is not at the last height of 64 bits.
abbrev pub IsLow : NodeState → Type 0
IsLow s = s.blockchain.head.header.height + 1 < 2 ^ 64

-- In the same round of the same height, an accepted proposal stays.
pub record Stays (s t : NodeState) : Type 0 where
  pub height : Chain.height t.blockchain ≡ Chain.height s.blockchain
  pub round : t.round ≡ s.round
  pub accepted :
      (s.proposal_accepted_for_current_round ≡ none)
      ⊎ (t.proposal_accepted_for_current_round ≡ s.proposal_accepted_for_current_round)

abbrev pub Later : NodeState → NodeState → Type 0
Later s t =
    (Chain.height s.blockchain < Chain.height t.blockchain)
    ⊎ ((Chain.height t.blockchain ≡ Chain.height s.blockchain) × (s.round < t.round))

abbrev pub Keeps : NodeState → NodeState → Type 0
Keeps s t = Later s t ⊎ Stays s t

-- A message that is stored changes neither.
pub store-Keeps :
    (s t : NodeState) (m : QbftMessage) → Keeps s t → Keeps s (insert_message_sorted t m)
unfolding insert_message_sorted
store-Keeps s t m (inl (inl h)) = inl (inl (ground arith))
store-Keeps s t m (inl (inr (e, h))) = inl (inr (ground arith, ground arith))
store-Keeps s t m (inr h) = elim (Bool-cases (has_key t.message_keys (components m))) [
  | inl e ↦ rw e (inr h)
  | inr e ↦ rw e (inr (record { height = h.height; round = h.round; accepted = h.accepted }))
]

-- The commits among the messages to send.
abbrev commit_in : QbftMessage → Option SignedCommit
commit_in (commit c) = some c.commit_payload
commit_in _ = none

abbrev pub commits_of : List QbftMessageWithRecipient → List SignedCommit
commits_of = filter_map λ o. commit_in o.message

module _ ⦃env : Env⦄ where
  -- The commit to a block at a height and a round, signed with a key whose address is given.
  abbrev pub commit_to : PrivateKey → Address → ℕ → ℕ → Block → SignedCommit
  commit_to k a height round b =
      let u : UnsignedCommit = record {
        height = height;
        round = round;
        commit_seal = record {
          author = a;
          signature = env.sign_message_sync k (env.hash_bytes (hash_block_for_commit_seal b));
        };
        digest = digest b;
      } in
      record {
        unsigned_payload = u;
        signature = record {
          author = a;
          signature = env.sign_message_sync k (env.encode_commit u);
        };
      }

module _ ⦃env : Env⦄ (k : PrivateKey) (a : Address) where
  -- One commit, to the accepted block, which stays accepted.
  pub record Commits (s : NodeState) (r : Transition) : Type 0 where
    pub block : Proposal
    pub is_accepted : s.proposal_accepted_for_current_round ≡ some block
    pub still : r.0.proposal_accepted_for_current_round ≡ some block
    pub height : Chain.height r.0.blockchain ≡ Chain.height s.blockchain
    pub round : r.0.round ≡ s.round
    pub sends :
        commits_of (sent r.1)
        ≡ commit_to k a (Chain.height s.blockchain) s.round block.proposed_block ∷ []

  -- What a handler does to what the node has committed to.
  pub record Steady (s : NodeState) (r : Transition) : Type 0 where
    pub keeps : IsLow r.0 → Keeps s r.0
    pub commits : (commits_of (sent r.1) ≡ []) ⊎ Commits s r

  pub silent-Steady :
      (s t : NodeState) (out : Option (List QbftMessageWithRecipient))
      → commits_of (sent out) ≡ []
      → (IsLow t → Keeps s t)
      → Steady s (t, out)
  silent-Steady s t out e h = record { keeps = h; commits = inl e }

  pub idle-Steady : (s : NodeState) → Steady s (s, none)
  idle-Steady s =
      silent-Steady s s none refl
        λ _. inr (record { height = refl; round = refl; accepted = inr refl })

  pub on_some-Steady :
      {A : Type 0} (s : NodeState) (o : Option A) (f : A → Exec Transition)
      → ((x : A) → o ≡ some x → Gives (f x) (Steady s))
      → Gives (on_some o s f) (Steady s)
  on_some-Steady s none f h = Gives_ok (Steady s) _ (idle-Steady s)
  on_some-Steady s (some x) f h = h x refl

  pub if-Steady :
      (s : NodeState) (b : Bool) (m : Exec Transition)
      → (b ≡ true → Gives m (Steady s))
      → Gives (if b then m else ok (s, none)) (Steady s)
  if-Steady s true m h = h refl
  if-Steady s false m h = Gives_ok (Steady s) _ (idle-Steady s)
