-- ===== src/Node/Prepared.antt =====
-- What a node knows when it commits to a block, and when it adopts one.
use rbft.Base.{◌≡◌, ◌≤◌, List, Option, some, true, ok, length, IsDistinct}
use rbft.Types.{Address, Block, Proposal, QbftMessageWithRecipient, Signature, SignedCommit}
use rbft.Env.{Env, digest}
use rbft.Chain
use rbft.Quorum.{quorum}
use rbft.Sign.{sign_hash, sign_commit, hash_block_for_commit_seal}
use rbft.State.{
  NodeState, messages_received, insert_message_sorted, set_last_prepared_block_and_round,
}
use rbft.State.{has_key}
use rbft.Message.{components}
use rbft.Votes.{prepare_authors, valid_prepares_for_height_round_and_digest}
use rbft.Types.{QbftMessage}
use rbft.Node.Normal.{multicast}

module _ ⦃env : Env⦄ where
  -- The authors of the prepares for a block in the current round.
  abbrev pub preparers : NodeState → Block → List Address
  preparers s b = prepare_authors (
      valid_prepares_for_height_round_and_digest (Chain.height s.blockchain) s.round (digest b)
        (messages_received s))

  -- The node's signed commit to a block, at its height and in its round.
  abbrev pub IsCommitTo : NodeState → Block → SignedCommit → Type 0
  IsCommitTo s b c =
      (seal : Signature) × (sign_hash (hash_block_for_commit_seal b) s ≡ ok seal)
      × (c.unsigned_payload ≡ record {
        height = Chain.height s.blockchain;
        round = s.round;
        commit_seal = seal;
        digest = digest b;
      })
      × (sign_commit c.unsigned_payload s ≡ ok c)

  abbrev pub message_of : SignedCommit → QbftMessage
  message_of c = QbftMessage.commit (record { commit_payload = c })

  -- A proposal that is accepted, with a quorum of distinct preparers, is recorded as prepared in the
  -- round, and the node's commit to it is stored and sent.
  pub record IsPrepared (s t : NodeState) (out : List QbftMessageWithRecipient) : Type 0 where
    pub accepted : Proposal
    pub is_accepted : s.proposal_accepted_for_current_round ≡ some accepted
    pub apart : IsDistinct (preparers s accepted.proposed_block)
    pub enough :
        quorum (length (Chain.validators s.blockchain))
        ≤ length (
            valid_prepares_for_height_round_and_digest
              (Chain.height s.blockchain)
              s.round
              (digest accepted.proposed_block)
              (messages_received s))
    pub own : SignedCommit
    pub is_own : IsCommitTo s accepted.proposed_block own
    pub sent : out ≡ multicast (Chain.validators s.blockchain) (message_of own)
    pub stored : has_key t.message_keys (components (message_of own)) ≡ true
    pub block : t.last_prepared_block ≡ some accepted.proposed_block
    pub round : t.last_prepared_round ≡ some s.round

  -- What `send_commit` does when it returns.
  abbrev Sends : NodeState → Block → NodeState → Option (List QbftMessageWithRecipient) → Type 0
  Sends s b t o =
      (c : SignedCommit) × IsCommitTo s b c
      × (t ≡ insert_message_sorted (set_last_prepared_block_and_round s b s.round) (message_of c))
      × (o ≡ some (multicast (Chain.validators t.blockchain) (message_of c)))
