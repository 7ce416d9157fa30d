-- ===== src/Node/Announced.antt =====
-- What the leader announces when it has a quorum of commits, against what the others accept.
use rbft.Base.{
  ◌≡◌, refl, false, Bool, ◌&&◌, sym, subst, ap, List, [], ◌∷◌, some, Bool, true, ◌&&◌, ◌==◌, leb,
  eq→==, ==→eq, arith, Gives, all,
}
use rbft.Types.{Address, Hash, Block, Proposal, SignedCommit, SignedNewBlock, new_block}
use rbft.Env.{Env, digest, validate_digest}
use rbft.Chain
use rbft.Message.{recover_signed_commit_author}
use rbft.Sign.{sign_new_block, hash_block_for_commit_seal}
use rbft.Votes.{commit_authors}
use rbft.Seals.{seal_ok, seal_authors, valid_new_block}
use rbft.State.{NodeState, is_the_proposer_for_current_round, new_round}
use rbft.State.Intake.{insert_message-blockchain}
use rbft.Node.Normal.{
  Transition, multicast, valid_commits, commit_quorum, sealed, adopt, commit_block, upon_commit,
  get_commit_seals_from_commit_messages,
}
use rbft.Node.Invariant.{Inv, HasKey, sign_bytes_lem}

module _ ⦃env : Env⦄ where
  -- The seal of a commit is by the commit's author, a validator, and verifies against the hash.
  abbrev pub has_good_seal : List Address → Hash → SignedCommit → Bool
  has_good_seal vs hash c =
      c.unsigned_payload.commit_seal.author == recover_signed_commit_author c
      && seal_ok vs hash c.unsigned_payload.commit_seal

  seal_authors-commits :
      (vs : List Address) (hash : Hash) (cs : List SignedCommit)
      → all (has_good_seal vs hash) cs ≡ true
      → seal_authors (get_commit_seals_from_commit_messages cs) ≡ commit_authors cs
  seal_authors-commits vs hash [] h = refl
  seal_authors-commits vs hash (c ∷ cs) h =
      let same : c.unsigned_payload.commit_seal.author ≡ recover_signed_commit_author c =
        ==→eq _ _ (ground arith) in
      rw (same, seal_authors-commits vs hash cs (ground arith))

  seal_ok-commits :
      (vs : List Address) (hash : Hash) (cs : List SignedCommit)
      → all (has_good_seal vs hash) cs ≡ true
      → all (seal_ok vs hash) (get_commit_seals_from_commit_messages cs) ≡ true
  seal_ok-commits vs hash [] h = refl
  seal_ok-commits vs hash (c ∷ cs) h = ground (arith, seal_ok-commits vs hash cs)

  -- What a leader has done: the sealed block is its head, and is sent to all; and a node that is still
  -- at the leader's old chain accepts what is sent.
  pub record IsAnnounced (s : NodeState) (b : Block) (r : Transition) : Type 0 where
    pub announced : SignedNewBlock
    pub sent : r.1 ≡ some (multicast (Chain.validators r.0.blockchain) (new_block announced))
    pub block : announced.block ≡ sealed s b
    pub head : r.0.blockchain.head ≡ sealed s b
    pub valid : valid_new_block s.blockchain announced ≡ true

  sealed-valid :
      (s : NodeState) (b : Block) (n : SignedNewBlock)
      → n.block ≡ sealed s b
      → n.unsigned_payload.height ≡ n.block.header.height
      → n.unsigned_payload.round ≡ n.block.header.round_number
      → n.unsigned_payload.digest ≡ digest n.block
      → b.header.height ≡ Chain.height s.blockchain
      → validate_digest b ≡ true
      → commit_quorum s b ≡ true
      → all
          (has_good_seal (Chain.validators s.blockchain) (hash_block_for_commit_seal b))
          (valid_commits s b)
        ≡ true
      → valid_new_block s.blockchain n ≡ true
  unfolding valid_new_block sealed validate_digest hash_block_for_commit_seal
  sealed-valid s b n e eh er ed h body q good =
      let vs = Chain.validators s.blockchain in
      let authors =
        seal_authors-commits vs (hash_block_for_commit_seal b) (valid_commits s b) good in
      let oks = seal_ok-commits vs (hash_block_for_commit_seal b) (valid_commits s b) good in
      let t1 = eq→== _ _ eh in
      let t2 = eq→== _ _ er in
      let t3 = eq→== _ _ ed in
      let low : leb (Chain.height s.blockchain) b.header.height ≡ true = ground arith in
      rw (t1, t2, t3, e, authors, oks, low, body, q)

  commit_block-IsAnnounced :
      (s : NodeState) (b : Block)
      → HasKey s
      → b.header.height ≡ Chain.height s.blockchain
      → validate_digest b ≡ true
      → commit_quorum s b ≡ true
      → all
          (has_good_seal (Chain.validators s.blockchain) (hash_block_for_commit_seal b))
          (valid_commits s b)
        ≡ true
      → Gives (commit_block s (sealed s b)) (IsAnnounced s b)
  unfolding commit_block sign_new_block adopt new_round Chain.set_head Chain.set_proposed_block
  commit_block-IsAnnounced s b (k, a, e, f) h body q good =
      let n : SignedNewBlock = record {
        unsigned_payload = record {
          height = (sealed s b).header.height;
          round = (sealed s b).header.round_number;
          digest = digest (sealed s b);
        };
        signature = record {
          author = a;
          signature = env.sign_message_sync k (
              env.encode_new_block (record {
                height = (sealed s b).header.height;
                round = (sealed s b).header.round_number;
                digest = digest (sealed s b);
              }));
        };
        block = sealed s b;
      } in
      rw (sign_bytes_lem k a, e, f)
        (
          _,
          refl,
          record {
            announced = n;
            sent = refl;
            block = refl;
            head =
                ap (λ c. c.head) (insert_message-blockchain (adopt s (sealed s b)) (new_block n));
            valid = sealed-valid s b n refl refl refl refl h body q good;
          },
        )

  -- What a leader has done in the other case: its head is a block that the others do not take.
  pub record IsRejected (s : NodeState) (b : Block) (r : Transition) : Type 0 where
    pub announced : SignedNewBlock
    pub sent : r.1 ≡ some (multicast (Chain.validators r.0.blockchain) (new_block announced))
    pub block : announced.block ≡ sealed s b
    pub head : r.0.blockchain.head ≡ sealed s b
    pub refused : valid_new_block s.blockchain announced ≡ false

  and-false : (p q r : Bool) → r ≡ false → (p && (q && r)) ≡ false
  and-false p q r e = ground arith

  sealed-refused :
      (s : NodeState) (b : Block) (n : SignedNewBlock)
      → n.block ≡ sealed s b
      → all
          (seal_ok (Chain.validators s.blockchain) (hash_block_for_commit_seal b))
          (get_commit_seals_from_commit_messages (valid_commits s b))
        ≡ false
      → valid_new_block s.blockchain n ≡ false
  unfolding valid_new_block sealed hash_block_for_commit_seal
  sealed-refused s b n e bad =
      let same : all (seal_ok (Chain.validators s.blockchain) (hash_block_for_commit_seal n.block))
            n.block.header.commit_seals
          ≡ false =
        rw e bad in
      ground arith

  commit_block-IsRejected :
      (s : NodeState) (b : Block)
      → HasKey s
      → all
          (seal_ok (Chain.validators s.blockchain) (hash_block_for_commit_seal b))
          (get_commit_seals_from_commit_messages (valid_commits s b))
        ≡ false
      → Gives (commit_block s (sealed s b)) (IsRejected s b)
  unfolding commit_block sign_new_block adopt new_round Chain.set_head Chain.set_proposed_block
  commit_block-IsRejected s b (k, a, e, f) bad =
      rw (sign_bytes_lem k a, e, f)
        (
          _,
          refl,
          record {
            announced = record {
              unsigned_payload = record {
                height = (sealed s b).header.height;
                round = (sealed s b).header.round_number;
                digest = digest (sealed s b);
              };
              signature = record {
                author = a;
                signature = env.sign_message_sync k (
                    env.encode_new_block (record {
                      height = (sealed s b).header.height;
                      round = (sealed s b).header.round_number;
                      digest = digest (sealed s b);
                    }));
              };
              block = sealed s b;
            };
            sent = refl;
            block = refl;
            head = ap (λ c. c.head) (insert_message-blockchain (adopt s (sealed s b)) _);
            refused = sealed-refused s b _ refl bad;
          },
        )

  -- The leader of the round has accepted a proposal whose body has the digest of its header, and has
  -- commits by a quorum of authors; the seals of these commits are by their authors, which are
  -- validators, and verify. Then `upon_commit` makes the sealed block the head and announces it, and
  -- `valid_new_block` accepts the announced block at the chain that the leader had before.
  pub upon_commit-IsAnnounced :
      (s : NodeState) (p : Proposal)
      → Inv s
      → HasKey s
      → s.proposal_accepted_for_current_round ≡ some p
      → is_the_proposer_for_current_round s ≡ true
      → validate_digest p.proposed_block ≡ true
      → commit_quorum s p.proposed_block ≡ true
      → all
          (has_good_seal
            (Chain.validators s.blockchain)
            (hash_block_for_commit_seal p.proposed_block))
          (valid_commits s p.proposed_block)
        ≡ true
      → Gives (upon_commit s) (IsAnnounced s p.proposed_block)
  unfolding upon_commit
  upon_commit-IsAnnounced s p v k accepted leads body q good =
      let fires : upon_commit s ≡ commit_block s (sealed s p.proposed_block) = ground arith in
      subst (λ m. Gives m (IsAnnounced s p.proposed_block)) (sym fires)
        (commit_block-IsAnnounced s p.proposed_block k (v.accepted p accepted) body q good)

  -- The leader of the round has accepted a proposal and has commits by a quorum of authors, and the seal
  -- of some counted commit is not by a validator or does not verify. Then `upon_commit` all the same
  -- makes the sealed block the head and announces it, and `valid_new_block` refuses the announced block
  -- at the chain that the leader had before.
  pub upon_commit-IsRejected :
      (s : NodeState) (p : Proposal)
      → HasKey s
      → s.proposal_accepted_for_current_round ≡ some p
      → is_the_proposer_for_current_round s ≡ true
      → commit_quorum s p.proposed_block ≡ true
      → all
          (seal_ok (Chain.validators s.blockchain) (hash_block_for_commit_seal p.proposed_block))
          (get_commit_seals_from_commit_messages (valid_commits s p.proposed_block))
        ≡ false
      → Gives (upon_commit s) (IsRejected s p.proposed_block)
  unfolding upon_commit
  upon_commit-IsRejected s p k accepted leads q bad =
      let fires : upon_commit s ≡ commit_block s (sealed s p.proposed_block) = ground arith in
      subst (λ m. Gives m (IsRejected s p.proposed_block)) (sym fires)
        (commit_block-IsRejected s p.proposed_block k bad)
