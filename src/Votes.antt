-- ===== src/Votes.antt =====
-- The prepare and commit filters of crates/rbft/src/node_auxilliary_functions.rs.
pub mod Authors
use rbft.Base.{
  ℕ, List, Option, none, some, Bool, false, ◌&&◌, ◌==◌, if◌then◌else◌, map, keep, filter_map,
  contains, distinct, length,
}
use rbft.Types.{
  Address, Hash, Block, Proposal, SignedPrepare, SignedCommit, QbftMessage, prepare, commit,
}
use rbft.Env.{Env, digest}
use rbft.Chain
use rbft.Message.{recover_signed_prepare_author, recover_signed_commit_author}
use rbft.State.{NodeState, messages_received}

unfoldable pub valid_signed_prepare_for_height_round_and_digest :
    SignedPrepare → ℕ → ℕ → Hash → List Address → Bool
valid_signed_prepare_for_height_round_and_digest p height round d validators =
    p.unsigned_payload.height == height
    && p.unsigned_payload.round == round
    && p.unsigned_payload.digest == d
    && contains validators (recover_signed_prepare_author p)

abbrev pub prepare_for : ℕ → ℕ → Hash → QbftMessage → Option SignedPrepare
prepare_for height round d (prepare p) =
    let u = p.prepare_payload.unsigned_payload in
    if u.height == height && u.round == round && u.digest == d then some p.prepare_payload else none
prepare_for height round d _ = none

unfoldable pub valid_prepares_for_height_round_and_digest :
    ℕ → ℕ → Hash → List QbftMessage → List SignedPrepare
valid_prepares_for_height_round_and_digest height round d messages =
    filter_map (prepare_for height round d) messages

abbrev is_valid_prepare : ℕ → ℕ → Hash → List Address → QbftMessage → Bool
is_valid_prepare height round d validators (prepare p) =
    valid_signed_prepare_for_height_round_and_digest p.prepare_payload height round d validators
is_valid_prepare height round d validators _ = false

unfoldable pub valid_prepares_for_height_round_and_digest_messages :
    List QbftMessage → ℕ → ℕ → Hash → List Address → List QbftMessage
valid_prepares_for_height_round_and_digest_messages messages height round d validators =
    keep (is_valid_prepare height round d validators) messages

abbrev pub commit_for : ℕ → ℕ → Hash → QbftMessage → Option SignedCommit
commit_for height round d (commit c) =
    let u = c.commit_payload.unsigned_payload in
    if u.height == height && u.round == round && u.digest == d then some c.commit_payload else none
commit_for height round d _ = none

unfoldable pub valid_commits_for_height_round_and_digest :
    ℕ → ℕ → Hash → List QbftMessage → List SignedCommit
valid_commits_for_height_round_and_digest height round d messages =
    filter_map (commit_for height round d) messages

abbrev pub prepare_authors : List SignedPrepare → List Address
prepare_authors = map recover_signed_prepare_author

abbrev pub commit_authors : List SignedCommit → List Address
commit_authors = map recover_signed_commit_author

module _ ⦃env : Env⦄ where
  unfoldable pub validate_commit : SignedCommit → ℕ → ℕ → Block → List Address → Bool
  validate_commit c height round b validators =
      c.unsigned_payload.height == height
      && c.unsigned_payload.round == round
      && c.unsigned_payload.digest == digest b
      && contains validators (recover_signed_commit_author c)

  progress_counts : NodeState → Proposal → ℕ × ℕ
  progress_counts s p =
      let h = Chain.height s.blockchain in
      let d = digest p.proposed_block in
      let vs = Chain.validators s.blockchain in
      let prepares = valid_prepares_for_height_round_and_digest h 0 d (messages_received s) in
      let commits = valid_commits_for_height_round_and_digest h 0 d (messages_received s) in
      (
        length (distinct (keep (contains vs) (prepare_authors prepares))),
        length (distinct (keep (contains vs) (commit_authors commits))),
      )

  unfoldable pub round_zero_progress_counts : NodeState → Option (ℕ × ℕ)
  unfolding progress_counts
  round_zero_progress_counts s =
      if s.round == 0
      then elim s.proposal_accepted_for_current_round [
        | none ↦ none
        | some p ↦ some (progress_counts s p)
      ]
      else none
