-- ===== src/Node/Normal.antt =====
-- The handlers of the normal case in crates/rbft/src/node.rs.
use mathlib.Core.List.{reverse}
use rbft.Base.{
  List, [], ◌∷◌, ◌++◌, Option, none, some, Bool, false, ◌&&◌, not, ◌==◌, ltb, leb, if◌then◌else◌,
  ◌>>=◌, Exec, ok, map, any, find_map, distinct, length, is_none, max,
}
use rbft.Types.{
  Address, Signature, Block, Proposal, SignedCommit, SignedNewBlock, QbftMessage, proposal, prepare,
  commit, new_block, QbftMessageWithRecipient, address_zero,
}
use rbft.Env.{Env, digest}
use rbft.Chain
use rbft.Message.{proposer, recover_signed_commit_author}
use rbft.Quorum.{quorum}
use rbft.State.{
  NodeState, messages_received, insert_message_sorted, next_block_timeout, get_new_block,
  set_last_prepared_block_and_round, new_round, is_the_proposer_for_current_round,
  prune_messages_below_height,
}
use rbft.Sign.{
  sign_proposal, sign_prepare, sign_commit, sign_hash, sign_new_block, hash_block_for_commit_seal,
}
use rbft.Votes.{
  valid_prepares_for_height_round_and_digest, valid_commits_for_height_round_and_digest,
  commit_authors,
}
use rbft.Seals.{valid_new_block}
use rbft.Justify.{is_valid_proposal}

abbrev pub Transition : Type 0
Transition = NodeState × Option (List QbftMessageWithRecipient)

-- `if let Some(a) = o { … }`: the handler does not fire otherwise.
abbrev pub on_some {ℓ} :
    {A : Type ℓ} → Option A → NodeState → (A → Exec Transition) → Exec Transition
on_some none s f = ok (s, none)
on_some (some a) s f = f a

-- The sending is done elsewhere: one entry stands for all recipients.
unfoldable pub multicast : List Address → QbftMessage → List QbftMessageWithRecipient
multicast recipients m = record { message = m; recipient = address_zero } ∷ []

unfoldable pub upon_block_timeout_ready : NodeState → Bool
upon_block_timeout_ready s =
    s.round == 0
    && proposer 0 s.blockchain == s.id
    && leb (next_block_timeout s) s.local_time
    && is_none s.proposal_accepted_for_current_round

-- `get_commit_seals_from_commit_messages`.
abbrev pub get_commit_seals_from_commit_messages : List SignedCommit → List Signature
get_commit_seals_from_commit_messages = map λ c. c.unsigned_payload.commit_seal

module _ ⦃env : Env⦄ where
  unfoldable pub propose : NodeState → Block → Exec Transition
  propose s b = do
    let h = Chain.height s.blockchain
    payload ← sign_proposal (record { height = h; round = 0; digest = digest b }) s
    let p : Proposal = record {
      proposal_payload = payload;
      proposed_block = b;
      proposal_justification = [];
      round_change_justification = [];
    }
    let t = record s {
      proposal_accepted_for_current_round = some p;
      time_last_round_start = s.local_time;
    }
    vote ← sign_prepare (record { height = h; round = 0; digest = digest b }) t
    let vs = Chain.validators t.blockchain
    ok (
      t,
      some
          (multicast vs (proposal p) ++ multicast vs (prepare (record { prepare_payload = vote }))),
    )

  unfoldable pub upon_block_timeout : NodeState → Exec Transition
  upon_block_timeout s =
      if upon_block_timeout_ready s then on_some (get_new_block s 0) s (propose s) else ok (s, none)

  unfoldable pub accept_proposal : NodeState → Proposal → Exec Transition
  accept_proposal s p = do
    let r = p.proposal_payload.unsigned_payload.round
    vote ←
        sign_prepare
          (record {
            height = Chain.height s.blockchain;
            round = r;
            digest = digest p.proposed_block;
          })
          s
    let m = prepare (record { prepare_payload = vote })
    let t = record s {
      proposal_accepted_for_current_round = some p;
      time_last_round_start = if ltb s.round r then s.local_time else s.time_last_round_start;
      round = r;
    }
    ok (insert_message_sorted t m, some (multicast (Chain.validators t.blockchain) m))

  unfoldable pub valid_proposal_in : NodeState → QbftMessage → Option Proposal
  valid_proposal_in s (proposal p) = if is_valid_proposal p s then some p else none
  valid_proposal_in s _ = none

  -- The first valid proposal received.
  unfoldable pub upon_proposal : NodeState → Exec Transition
  upon_proposal s =
      on_some (find_map (valid_proposal_in s) (messages_received s)) s (accept_proposal s)

  abbrev is_own_commit : NodeState → QbftMessage → Bool
  is_own_commit s (commit c) =
      let u = c.commit_payload.unsigned_payload in
      u.height == Chain.height s.blockchain
      && u.round == s.round
      && recover_signed_commit_author c.commit_payload == s.id
  is_own_commit s _ = false

  unfoldable pub has_sent_commit : NodeState → Bool
  has_sent_commit s = any (is_own_commit s) (messages_received s)

  unfoldable pub send_commit : NodeState → Block → Exec Transition
  send_commit s b = do
    seal ← sign_hash (hash_block_for_commit_seal b) s
    payload ←
        sign_commit
          (record {
            height = Chain.height s.blockchain;
            round = s.round;
            commit_seal = seal;
            digest = digest b;
          })
          s
    let m = commit (record { commit_payload = payload })
    let t = insert_message_sorted (set_last_prepared_block_and_round s b s.round) m
    ok (t, some (multicast (Chain.validators t.blockchain) m))

  unfoldable pub prepare_quorum : NodeState → Block → Bool
  prepare_quorum s b = leb (quorum (length (Chain.validators s.blockchain))) (
      length (
        valid_prepares_for_height_round_and_digest (Chain.height s.blockchain) s.round (digest b)
          (messages_received s)))

  unfoldable pub upon_prepare : NodeState → Exec Transition
  upon_prepare s = on_some s.proposal_accepted_for_current_round s λ p.
      if prepare_quorum s p.proposed_block && not (has_sent_commit s)
      then send_commit s p.proposed_block
      else ok (s, none)

  unfoldable pub valid_commits : NodeState → Block → List SignedCommit
  valid_commits s b =
      valid_commits_for_height_round_and_digest (Chain.height s.blockchain) s.round (digest b)
        (messages_received s)

  abbrev pub commit_quorum : NodeState → Block → Bool
  commit_quorum s b =
      leb (quorum (length (Chain.validators s.blockchain)))
        (length (distinct (commit_authors (valid_commits s b))))

  -- The block with the seals of the commits.
  unfoldable pub sealed : NodeState → Block → Block
  sealed s b = record b {
    header = record (b.header) {
      commit_seals = get_commit_seals_from_commit_messages (valid_commits s b);
    };
  }

  -- A new head, and round 0 of the next height.
  unfoldable pub adopt : NodeState → Block → NodeState
  adopt s b =
      let t = record s {
        blockchain = Chain.set_proposed_block (Chain.set_head s.blockchain b) none;
      } in
      new_round t 0 (max t.local_time (next_block_timeout t)) none

  unfoldable pub commit_block : NodeState → Block → Exec Transition
  commit_block s b = do
    let t = adopt s b
    announced ← sign_new_block b t
    let m = new_block announced
    let u = insert_message_sorted t m
    ok (u, some (multicast (Chain.validators u.blockchain) m))

  unfoldable pub upon_commit : NodeState → Exec Transition
  upon_commit s = on_some s.proposal_accepted_for_current_round s λ p.
      if is_the_proposer_for_current_round s && commit_quorum s p.proposed_block
      then commit_block s (sealed s p.proposed_block)
      else ok (s, none)

  unfoldable pub valid_new_block_in : NodeState → QbftMessage → Option SignedNewBlock
  valid_new_block_in s (new_block b) = if valid_new_block s.blockchain b then some b else none
  valid_new_block_in s _ = none

  -- The last valid block among all stored messages, those of later heights included.
  unfoldable pub upon_new_block : NodeState → Exec Transition
  upon_new_block s =
      on_some (find_map (valid_new_block_in s) (reverse s.messages_received)) s
        λ b. ok (prune_messages_below_height (adopt s b.block), some [])
