-- ===== src/Message.antt =====
-- crates/rbft/src/types/qbft_message.rs: the key, author, height and round of a message, and the
-- checks that it must pass before it is stored.
pub mod Leaders
use rbft.Base.{
  ℕ, List, [], ◌∷◌, Option, none, some, Bool, true, false, ◌&&◌, ◌==◌, ltb, if◌then◌else◌, u64, all,
  contains, ◌+◌, ◌%◌, suc, length, position, get_or, is_empty,
}
use rbft.Types.{
  Address, Signature, SignedProposal, SignedPrepare, SignedRoundChange, SignedNewBlock, QbftMessage,
  proposal, prepare, commit, round_change, new_block, block_request, block_response, address_zero,
  SignedCommit,
}
use rbft.Env.{Env, verify_message, validate_digest}
use rbft.Chain.{Blockchain}
use rbft.Chain

-- The `recover_…_author` functions: the author that the signature claims.
abbrev pub recover_signed_proposal_author : SignedProposal → Address
recover_signed_proposal_author m = m.signature.author

abbrev pub recover_signed_prepare_author : SignedPrepare → Address
recover_signed_prepare_author m = m.signature.author

abbrev pub recover_signed_commit_author : SignedCommit → Address
recover_signed_commit_author m = m.signature.author

abbrev pub recover_signed_round_change_author : SignedRoundChange → Address
recover_signed_round_change_author m = m.signature.author

abbrev pub recover_signed_new_block_author : Signature → Address
recover_signed_new_block_author s = s.author

after_index : Option ℕ → ℕ
after_index none = 0
after_index (some idx) = suc idx

-- The index of the round 0 proposer: after the proposer of the head, where it is a validator.
unfoldable pub round_zero_index : Blockchain → ℕ
unfolding after_index
round_zero_index bc =
    if Chain.height bc == 1
    then 0
    else after_index (position (Chain.validators bc) bc.head.header.proposer)

-- `proposer` of node_auxilliary_functions.rs. An index modulo the length is in range.
unfoldable pub proposer : ℕ → Blockchain → Address
proposer round bc =
    if is_empty (Chain.validators bc)
    then address_zero
    else get_or (Chain.validators bc)
        (u64 (round_zero_index bc + round) % length (Chain.validators bc)) address_zero

unfoldable pub author : QbftMessage → Address
author (proposal p) = recover_signed_proposal_author p.proposal_payload
author (prepare p) = recover_signed_prepare_author p.prepare_payload
author (commit c) = recover_signed_commit_author c.commit_payload
author (round_change rc) = recover_signed_round_change_author rc.round_change_payload
author (new_block b) = recover_signed_new_block_author b.signature
author (block_request _) = address_zero
author (block_response _) = address_zero

-- The height of the first block of a response, 0 if it has none.
response_height : List SignedNewBlock → ℕ
response_height [] = 0
response_height (b ∷ _) = b.unsigned_payload.height

unfoldable pub height : QbftMessage → ℕ
unfolding response_height
height (proposal p) = p.proposal_payload.unsigned_payload.height
height (prepare p) = p.prepare_payload.unsigned_payload.height
height (commit c) = c.commit_payload.unsigned_payload.height
height (round_change rc) = rc.round_change_payload.unsigned_payload.height
height (new_block b) = b.unsigned_payload.height
height (block_request r) = r.from_height
height (block_response r) = response_height r.blocks

unfoldable pub round : QbftMessage → ℕ
round (proposal p) = p.proposal_payload.unsigned_payload.round
round (prepare p) = p.prepare_payload.unsigned_payload.round
round (commit c) = c.commit_payload.unsigned_payload.round
round (round_change rc) = rc.round_change_payload.unsigned_payload.round
round (new_block b) = b.unsigned_payload.round
round (block_request _) = 0
round (block_response _) = 0

-- (height, round, kind, author): messages are sorted by it, and stored once for each.
abbrev pub Key : Type 0
Key = ℕ × ℕ × ℕ × Address

-- A request is sorted by its height range, and not by its `round`.
unfoldable pub components : QbftMessage → Key
unfolding author response_height
components (proposal p) =
    let u = p.proposal_payload.unsigned_payload in (u.height, u.round, 0, author (proposal p))
components (prepare p) =
    let u = p.prepare_payload.unsigned_payload in (u.height, u.round, 1, author (prepare p))
components (commit c) =
    let u = c.commit_payload.unsigned_payload in (u.height, u.round, 2, author (commit c))
components (round_change rc) =
    let u = rc.round_change_payload.unsigned_payload in
    (u.height, u.round, 3, author (round_change rc))
components (new_block b) =
    let u = b.unsigned_payload in (u.height, u.round, 4, author (new_block b))
components (block_request r) = (r.from_height, r.to_height, 5, address_zero)
components (block_response r) = (response_height r.blocks, 0, 6, address_zero)

-- The order of tuples.
abbrev pub key_ltb : Key → Key → Bool
key_ltb (h, r, t, a) (h', r', t', a') =
    if h == h'
    then (if r == r' then (if t == t' then ltb a a' else ltb t t') else ltb r r')
    else ltb h h'

abbrev pub key_eq : Key → Key → Bool
key_eq (h, r, t, a) (h', r', t', a') = h == h' && r == r' && t == t' && a == a'

-- A conjunction with an error: `if !a? { return Ok(false) }`, then the rest.
abbrev and_then : Option Bool → Option Bool → Option Bool
and_then none rest = none
and_then (some false) rest = some false
and_then (some true) rest = rest

abbrev all_ok {ℓ} : {A : Type ℓ} → (A → Option Bool) → List A → Option Bool
all_ok f [] = some true
all_ok f (x ∷ xs) = and_then (f x) (all_ok f xs)

module _ ⦃env : Env⦄ where
  unfoldable pub check_digest : QbftMessage → Bool
  check_digest (proposal p) = validate_digest p.proposed_block
  check_digest (round_change rc) = elim rc.proposed_block_for_next_round [
    | none ↦ true
    | some b ↦ validate_digest b
  ]
  check_digest (new_block b) = validate_digest b.block
  check_digest (block_response r) = all (λ b. validate_digest b.block) r.blocks
  check_digest _ = true

  abbrev verify_round_change : SignedRoundChange → Option Bool
  verify_round_change rc = verify_message rc.signature (env.encode_round_change rc.unsigned_payload)

  abbrev verify_prepare : SignedPrepare → Option Bool
  verify_prepare p = verify_message p.signature (env.encode_prepare p.unsigned_payload)

  -- The signature of a sealed block, and that its signer and proposer are its round's proposer.
  check_new_block : Blockchain → SignedNewBlock → Option Bool
  check_new_block bc b =
      let expected = proposer b.block.header.round_number bc in
      and_then (verify_message b.signature (env.encode_new_block b.unsigned_payload))
        (some (b.signature.author == expected && b.block.header.proposer == expected))

  -- none is an error of a signature check.
  unfoldable pub check_signatures : QbftMessage → Blockchain → Option Bool
  unfolding check_new_block
  check_signatures (proposal p) bc =
      let payload = p.proposal_payload in
      and_then (verify_message payload.signature (env.encode_proposal payload.unsigned_payload)) (
        and_then (all_ok verify_round_change p.proposal_justification)
          (all_ok verify_prepare p.round_change_justification))
  check_signatures (prepare p) bc = verify_prepare p.prepare_payload
  check_signatures (commit c) bc =
      let payload = c.commit_payload in
      verify_message payload.signature (env.encode_commit payload.unsigned_payload)
  check_signatures (round_change rc) bc =
      and_then (verify_round_change rc.round_change_payload)
        (all_ok verify_prepare rc.round_change_justification)
  check_signatures (new_block b) bc = check_new_block bc b
  check_signatures (block_request _) bc = some true
  check_signatures (block_response r) bc = all_ok (check_new_block bc) r.blocks

unfoldable pub check_authors : QbftMessage → List Address → Bool
unfolding author
check_authors (new_block b) vs =
    contains vs (author (new_block b)) && contains vs b.block.header.proposer
check_authors (block_request _) vs = true
check_authors (block_response r) vs = all (λ b. contains vs b.block.header.proposer) r.blocks
check_authors m vs = contains vs (author m)
