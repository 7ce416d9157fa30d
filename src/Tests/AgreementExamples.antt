-- ===== src/Tests/AgreementExamples.antt =====
-- The agreement theorems along the runs of validators 1 and 4, the faulty one being 3.
use mathlib.Core.List.{Memᴰ}
use rbft.Base.{
  ℕ, zero, suc, ◌+◌, ◌^◌, ◌<◌, ◌≡◌, refl, List, [], ◌∷◌, true, false, arith, ap, contains, ◌⊎◌, inl,
  inr, subst, sym, ◌∙◌,
}
use rbft.Types.{Address, Hash, Signature, Block, SignedNewBlock}
use rbft.Env.{digest, validate_digest, verify_message}
use rbft.Chain.{Blockchain}
use rbft.State.{NodeState, add_messages}
use rbft.Node.{node_next}
use rbft.Seals.{valid_new_block, seal_ok}
use rbft.Seals.Safety.{has_sealed}
use rbft.Sign.{hash_block_for_commit_seal}
use rbft.Justify.Unlocked.{is_valid_as_fresh}
use rbft.Changes.{valid_round_change}
use rbft.Message.{proposer, round_zero_index}
use rbft.Runs.{Reach, Next}
use rbft.Runs.Steady.{IsLow, commit_to}
use rbft.Runs.Commits.{commits_along, IsLowRun, run-commits_along}
use rbft.Runs.Agreement.{
  Validator, HasCommitted, CommitsTwice, SignsApart, valid_new_block-agreement,
}
use rbft.Tests.{test_chain, test_config}
use rbft.Justify.{as_of_round, fresh_justification, round_acceptable, validate_non_prepared_block}
use rbft.Quorum.{quorum}
use rbft.Chain
use rbft.State
use rbft.Quorum
use rbft.Tests.Forked.{
  chain_env, signed_with, first_block, second_block, digest_of, first_votes, second_votes, begin,
  told_again, accepted, committed, accepted_again, committed_again, Trace, walk_1, walk_4,
  second_proposal,
}

-- The rounds are below the last one.
abbrev InFewRounds : NodeState → Type 0
InFewRounds s = s.round + 1 < 2 ^ 64

told-InFewRounds : (a : Address) → Trace a → InFewRounds (add_messages (begin a) first_votes 106)
unfolding State.new
told-InFewRounds a w = rw w.receives (omega arith)

told_again-InFewRounds :
    (a : Address) → Trace a → InFewRounds (add_messages (committed a) second_votes 107)
unfolding State.new
told_again-InFewRounds a w = rw w.receives_again (omega arith)

round_0 : 0 + 1 < 2 ^ 64
round_0 = omega arith

round_1 : 1 + 1 < 2 ^ 64
round_1 = omega arith

run_of : (a : Address) → Trace a → Reach (begin a) (committed_again a)
unfolding State.new
run_of a w =
    let first = Reach.next Reach.here (Next.receive first_votes 106) in
    let second = Reach.next first (
      Next.step 106 (accepted a) _ (told-InFewRounds a w)
        (ap (λ s. node_next s 106) w.receives ∙ w.accepts)) in
    let third = Reach.next second (Next.step 106 (committed a) _ round_0 w.commits) in
    let fourth = Reach.next third (Next.receive second_votes 107) in
    let fifth = Reach.next fourth (
      Next.step 107 (accepted_again a) _ (told_again-InFewRounds a w)
        (ap (λ s. node_next s 107) w.receives_again ∙ w.accepts_again)) in
    Reach.next fifth (Next.step 107 (committed_again a) _ round_1 w.commits_again)

commits_along-run_of :
    (a : Address) (w : Trace a)
    → commits_along (run_of a w)
      ≡ commit_to a a 5 1 second_block ∷ commit_to a a 5 0 first_block ∷ []
unfolding run_of commits_along
commits_along-run_of a w = refl

run_of-IsLowRun : (a : Address) (w : Trace a) → IsLowRun (run_of a w)
unfolding run_of IsLowRun State.new
run_of-IsLowRun a w =
    let told_low : IsLow (add_messages (begin a) first_votes 106) =
      rw w.receives (unfold State.new in omega arith) in
    let again_low : IsLow (add_messages (committed a) second_votes 107) =
      rw w.receives_again (unfold State.new in omega arith) in
    (omega arith, (omega arith, (again_low, (omega arith, (omega arith, (told_low, tt))))))

validator : (v : Address) → Trace v → Validator v
validator v w = record {
  key = v;
  valid = refl;
  chain = test_chain;
  nothing_offered = refl;
  configuration = test_config;
  start = 104;
  state = committed_again v;
  run = run_of v w;
  low = run_of-IsLowRun v w;
}

idle : (v : Address) → Validator v
unfolding IsLowRun
idle v = record {
  key = v;
  valid = refl;
  chain = test_chain;
  nothing_offered = refl;
  configuration = test_config;
  start = 104;
  state = begin v;
  run = Reach.here;
  low = tt;
}

-- Validator 2 has done nothing yet, and 3, the leader of round 1, is the faulty one.
abbrev nodes : (v : Address) → Validator v
nodes (suc zero) = validator 1 walk_1
nodes (suc (suc (suc (suc zero)))) = validator 4 walk_4
nodes v = idle v

abbrev seals_of : Block → List Signature
seals_of b =
    signed_with 1 (digest_of b ∷ [])
    ∷ signed_with 3 (digest_of b ∷ [])
    ∷ signed_with 4 (digest_of b ∷ [])
    ∷ []

-- The block that the leader of its round announces, with the seals.
abbrev announced : Address → Block → SignedNewBlock
announced leader b = record {
  unsigned_payload = record { height = 5; round = b.header.round_number; digest = digest_of b };
  signature = signed_with leader [];
  block = record b { header = record (b.header) { commit_seals = seals_of b } };
}

abbrev first_new : SignedNewBlock
first_new = announced 2 first_block

abbrev second_new : SignedNewBlock
second_new = announced 3 second_block

abbrev hash_of : SignedNewBlock → Hash
hash_of b = hash_block_for_commit_seal b.block

abbrev Accounted : SignedNewBlock → Type 0
Accounted b =
    (v : Address)
    → contains (3 ∷ []) v ≡ false
    → has_sealed b.block.header.commit_seals (hash_of b) v ≡ true
    → (height : ℕ) × (round : ℕ) × HasCommitted v (nodes v) height round (hash_of b)

honest_sealers :
    (b : Block) (h : Hash) (v : Address)
    → contains (3 ∷ []) v ≡ false
    → has_sealed (seals_of b) h v ≡ true
    → (v ≡ 1) ⊎ (v ≡ 4)
unfolding has_sealed
honest_sealers b h v o s = ground arith

signs_apart : SignsApart
signs_apart k g h e = omega arith

was_first :
    (a : Address) (w : Trace a) → Memᴰ (commit_to a a 5 0 first_block) (commits_along (run_of a w))
was_first a w = rw (commits_along-run_of a w) (Memᴰ.tail (Memᴰ.head refl))

has_first : (a : Address) (w : Trace a) → HasCommitted a (validator a w) 5 0 (hash_of first_new)
unfolding validator hash_block_for_commit_seal
has_first a w = (first_block, refl, was_first a w)

has_second : (a : Address) (w : Trace a) → HasCommitted a (validator a w) 5 1 (hash_of second_new)
unfolding validator hash_block_for_commit_seal
has_second a w = (second_block, refl, rw (commits_along-run_of a w) (Memᴰ.head refl))

-- By which validators, if both 1 and 4 have.
answer_for :
    (b : SignedNewBlock) (round : ℕ)
    → ((v : Address)
        → contains (3 ∷ []) v ≡ false
        → has_sealed b.block.header.commit_seals (hash_of b) v ≡ true
        → (v ≡ 1) ⊎ (v ≡ 4))
    → HasCommitted 1 (nodes 1) 5 round (hash_of b)
    → HasCommitted 4 (nodes 4) 5 round (hash_of b)
    → Accounted b
answer_for b round sealers one four v o s =
    let P =
      λ (v : Address). (height : ℕ) × (r : ℕ) × HasCommitted v (nodes v) height r (hash_of b) in
    elim (sealers v o s) [
      | inl e ↦ subst P (sym e) (5, round, one)
      | inr e ↦ subst P (sym e) (5, round, four)
    ]

first_answer : Accounted first_new
first_answer =
    answer_for first_new 0 (honest_sealers first_block _) (has_first 1 walk_1) (has_first 4 walk_4)

second_answer : Accounted second_new
second_answer =
    answer_for second_new 1 (honest_sealers second_block _) (has_second 1 walk_1)
      (has_second 4 walk_4)

valid_first : valid_new_block test_chain first_new ≡ true
unfolding Chain.height quorum hash_block_for_commit_seal seal_ok valid_new_block verify_message
    digest validate_digest
valid_first = refl

valid_second : valid_new_block test_chain second_new ≡ true
unfolding Chain.height quorum hash_block_for_commit_seal seal_ok valid_new_block verify_message
    digest validate_digest
valid_second = refl

valid_new_block-agreement_example :
    (hash_of first_new ≡ hash_of second_new)
    ⊎ ((v : Address) × (contains (3 ∷ []) v ≡ false)
        × (contains (Chain.validators test_chain) v ≡ true)
        × CommitsTwice v (nodes v) (hash_of first_new) (hash_of second_new))
valid_new_block-agreement_example =
    valid_new_block-agreement (3 ∷ []) nodes test_chain first_new second_new signs_apart
      first_answer second_answer (omega arith) (omega arith) (unfold Quorum.f in omega arith)
      valid_first valid_second

run-commits_along_example : commit_to 1 1 5 0 first_block ≡ commit_to 1 1 5 0 first_block
run-commits_along_example =
    run-commits_along 1 1 refl test_chain test_config 104 (committed_again 1) refl (run_of 1 walk_1)
      (run_of-IsLowRun 1 walk_1) (commit_to 1 1 5 0 first_block) (commit_to 1 1 5 0 first_block)
      (was_first 1 walk_1) (was_first 1 walk_1) refl refl

-- And it takes the second one.
second_proposal-fresh : is_valid_as_fresh second_proposal (told_again 1) ≡ true
unfolding is_valid_as_fresh round_acceptable as_of_round digest quorum valid_round_change
    fresh_justification validate_non_prepared_block Chain.height proposer round_zero_index State.new
second_proposal-fresh = refl
