-- ===== src/Runs/Agreement.antt =====
-- Several validators: what the seals of two accepted blocks say of those that are honest. Each honest
-- validator is at some state of a run of its own; a run allows any messages, so it allows those that
-- the others send, in any order.
use mathlib.Core.List.{Memᴰ}
use rbft.Base.{
  ℕ, ◌^◌, ◌≤◌, ◌<◌, ◌≡◌, refl, sym, ap, ◌∙◌, ◌⊎◌, inl, inr, List, none, some, true, false, ◌&&◌,
  ◌==◌, arith, Bool-cases, contains, common, length, outside, IsWithin-contains, all-contains,
  ==→eq,
}
use rbft.Types.{Address, Hash, PrivateKey, Block, SignedNewBlock}
use rbft.Env.{Env}
use rbft.Chain.{Blockchain}
use rbft.Chain
use rbft.Config.{Configuration}
use rbft.State.{NodeState}
use rbft.State
use rbft.Quorum.{f}
use rbft.Sign.{hash_block_for_commit_seal}
use rbft.Seals.{valid_new_block}
use rbft.Seals.Safety.{sealers, has_sealed, valid_new_block-common-sealers}
use rbft.Runs.{Reach}
use rbft.Runs.Steady.{commit_to}
use rbft.Runs.Commits.{commits_along, IsLowRun, run-commits_along}

module _ ⦃env : Env⦄ where
  -- A validator that follows the code: its key, its first state, and its run so far.
  pub record Validator (v : Address) : Type 0 where
    pub key : PrivateKey
    pub valid : env.signer_address key ≡ some v
    pub chain : Blockchain
    pub nothing_offered : chain.proposed_block ≡ none
    pub configuration : Configuration
    pub start : ℕ
    pub state : NodeState
    pub run : Reach (State.new chain configuration v (some key) start) state
    pub low : IsLowRun run

  -- It has sent a commit, at this height and round, to a block with this hash for seals.
  abbrev pub HasCommitted : (v : Address) → Validator v → ℕ → ℕ → Hash → Type 0
  HasCommitted v w height round hash =
      (b : Block) × (hash_block_for_commit_seal b ≡ hash)
      × Memᴰ (commit_to w.key v height round b) (commits_along w.run)

  -- A signature of a hash is not one of another hash.
  abbrev pub SignsApart : Type 0
  SignsApart =
      (k : PrivateKey) (g h : Hash)
      → env.sign_message_sync k (env.hash_bytes g) ≡ env.sign_message_sync k (env.hash_bytes h)
      → g ≡ h

  HasCommitted-same :
      (v : Address) (w : Validator v) (height round : ℕ) (g h : Hash)
      → SignsApart
      → HasCommitted v w height round g
      → HasCommitted v w height round h
      → g ≡ h
  HasCommitted-same v w height round g h apart (b, p, i) (c, q, j) =
      let same =
        run-commits_along w.key v w.valid w.chain w.configuration w.start w.state w.nothing_offered
          w.run w.low _ _ i j refl refl in
      sym p ∙ apart w.key _ _ (ap (λ x. x.unsigned_payload.commit_seal.signature) same) ∙ q

  -- It has committed to both, at different heights or rounds.
  pub record CommitsTwice (v : Address) (w : Validator v) (g h : Hash) : Type 0 where
    pub height : ℕ
    pub round : ℕ
    pub other_height : ℕ
    pub other_round : ℕ
    pub first : HasCommitted v w height round g
    pub second : HasCommitted v w other_height other_round h
    pub differ : (height == other_height && round == other_round) ≡ false

  once_or_twice :
      (v : Address) (w : Validator v) (g h : Hash)
      → SignsApart
      → ((height : ℕ) × (round : ℕ) × HasCommitted v w height round g)
      → ((height : ℕ) × (round : ℕ) × HasCommitted v w height round h)
      → (g ≡ h) ⊎ CommitsTwice v w g h
  once_or_twice v w g h apart (n, r, c) (m, q, d) = elim (Bool-cases (n == m && r == q)) [
    | inr e ↦ inr (record {
      height = n;
      round = r;
      other_height = m;
      other_round = q;
      first = c;
      second = d;
      differ = e;
    })
    | inl e ↦
        let same_height : n ≡ m = ==→eq n m (ground arith) in
        let same_round : r ≡ q = ==→eq r q (ground arith) in
        inl (HasCommitted-same v w m q g h apart (rw (← same_height, ← same_round) c) d)
  ]

  -- Two blocks that are accepted on one chain (1 to 2^62 - 1 validators, at most f of them faulty) have
  -- the same hash for their commit seals, or some honest validator of the chain has sent commits to
  -- both, at different heights or rounds. Assumed: a signature of a hash is not one of another, and the
  -- seals of honest validators on the two blocks come from commits that they sent along their runs.
  pub valid_new_block-agreement :
      (faulty : List Address) (nodes : (v : Address) → Validator v) (bc : Blockchain)
      (a b : SignedNewBlock)
      → SignsApart
      → ((v : Address)
          → contains faulty v ≡ false
          → has_sealed a.block.header.commit_seals (hash_block_for_commit_seal a.block) v ≡ true
          → (height : ℕ) × (round : ℕ) × HasCommitted v
              (nodes v)
              height
              round
              (hash_block_for_commit_seal a.block))
      → ((v : Address)
          → contains faulty v ≡ false
          → has_sealed b.block.header.commit_seals (hash_block_for_commit_seal b.block) v ≡ true
          → (height : ℕ) × (round : ℕ) × HasCommitted v
              (nodes v)
              height
              round
              (hash_block_for_commit_seal b.block))
      → 0 < length (Chain.validators bc)
      → length (Chain.validators bc) < 2 ^ 62
      → length faulty ≤ f (length (Chain.validators bc))
      → valid_new_block bc a ≡ true
      → valid_new_block bc b ≡ true
      → (hash_block_for_commit_seal a.block ≡ hash_block_for_commit_seal b.block)
        ⊎ ((v : Address) × (contains faulty v ≡ false)
            × (contains (Chain.validators bc) v ≡ true)
            × CommitsTwice v
                (nodes v)
                (hash_block_for_commit_seal a.block)
                (hash_block_for_commit_seal b.block))
  valid_new_block-agreement faulty nodes bc a b apart sent_a sent_b pos small few va vb =
      let (distinct, within, many, all_a, all_b) =
        valid_new_block-common-sealers bc a b pos small va vb in
      let (v, m, honest) =
        outside faulty (common (sealers a) (sealers b)) distinct (omega (arith, few, many)) in
      let seals_a = all-contains _ _ v all_a m in
      let seals_b = all-contains _ _ v all_b m in
      elim (once_or_twice v (nodes v) _ _ apart (sent_a v honest seals_a)
        (sent_b v honest seals_b)) [
          | inl same ↦ inl same
          | inr twice ↦ inr (v, honest, IsWithin-contains _ _ v within m, twice)
        ]
