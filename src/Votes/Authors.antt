-- ===== src/Votes/Authors.antt =====
-- Who stands behind the prepares that a node counts.
use rbft.Base.{
  ℕ, ◌≡◌, refl, subst, ◌==◌, List, [], ◌∷◌, Option, none, some, true, false, arith, contains,
  IsDistinct, filter_map, Option-cases, inl, inr,
}
use rbft.Types.{Hash, SignedPrepare, QbftMessage}
use rbft.Message.{components, author, key_ltb}
use rbft.State.{NodeState, messages_received}
use rbft.State.Order.{Above, IsSorted}
use rbft.State.Store.{IsStore}
use rbft.State.Rounds.{take-IsSorted}
use rbft.Votes.{prepare_for, prepare_authors, valid_prepares_for_height_round_and_digest}

-- The key of a counted prepare.
prepare_for-key :
    (h r : ℕ) (d : Hash) (m : QbftMessage) (p : SignedPrepare)
    → prepare_for h r d m ≡ some p
    → components m ≡ (h, r, 1, p.signature.author)
unfolding components author
prepare_for-key h r d (QbftMessage.prepare q) p e = ground arith
prepare_for-key h r d (QbftMessage.proposal q) p e = cc
prepare_for-key h r d (QbftMessage.commit q) p e = cc
prepare_for-key h r d (QbftMessage.round_change q) p e = cc
prepare_for-key h r d (QbftMessage.new_block q) p e = cc
prepare_for-key h r d (QbftMessage.block_request q) p e = cc
prepare_for-key h r d (QbftMessage.block_response q) p e = cc

filter_map-none :
    {A B : Type 0} (f : A → Option B) (x : A) (xs : List A)
    → f x ≡ none
    → filter_map f (x ∷ xs) ≡ filter_map f xs
filter_map-none f x xs e = rw (filter_map, e) refl

filter_map-some :
    {A B : Type 0} (f : A → Option B) (x : A) (xs : List A) (b : B)
    → f x ≡ some b
    → filter_map f (x ∷ xs) ≡ b ∷ filter_map f xs
filter_map-some f x xs b e = rw (filter_map, e) refl

author-lt : (h r a b : ℕ) → key_ltb (h, r, 1, a) (h, r, 1, b) ≡ true → (b == a) ≡ false
author-lt h r a b e = ground arith

-- Above the key of one author's prepare there is no other of that author.
Above-authors :
    (h r a : ℕ) (d : Hash) (ms : List QbftMessage)
    → Above (h, r, 1, a) ms
    → contains (prepare_authors (filter_map (prepare_for h r d) ms)) a ≡ false
Above-authors h r a d [] w = refl
Above-authors h r a d (m ∷ ms) w = elim (Option-cases (prepare_for h r d m)) [
  | inl n ↦ rw (filter_map-none (prepare_for h r d) m ms n) (Above-authors h r a d ms w.1)
  | inr (p, n) ↦
      let below = subst (λ k. key_ltb (h, r, 1, a) k ≡ true) (prepare_for-key h r d m p n) w.0 in
      rw (filter_map-some (prepare_for h r d) m ms p n, author-lt h r a p.signature.author below)
        (Above-authors h r a d ms w.1)
]

sorted-authors :
    (h r : ℕ) (d : Hash) (ms : List QbftMessage)
    → IsSorted ms
    → IsDistinct (prepare_authors (filter_map (prepare_for h r d) ms))
sorted-authors h r d [] s = tt
sorted-authors h r d (m ∷ ms) s = elim (Option-cases (prepare_for h r d m)) [
  | inl n ↦ rw (filter_map-none (prepare_for h r d) m ms n) (sorted-authors h r d ms s.1)
  | inr (p, n) ↦
      let above = subst (λ k. Above k ms) (prepare_for-key h r d m p n) s.0 in
      rw (filter_map-some (prepare_for h r d) m ms p n)
        (Above-authors h r p.signature.author d ms above, sorted-authors h r d ms s.1)
]

-- In a well-formed store the prepares for a height, round and digest are by distinct authors, so that
-- their number is a number of votes.
pub valid_prepares-IsDistinct :
    (s : NodeState) (h r : ℕ) (d : Hash)
    → IsStore s
    → IsDistinct
        (prepare_authors (valid_prepares_for_height_round_and_digest h r d (messages_received s)))
unfolding valid_prepares_for_height_round_and_digest messages_received
valid_prepares-IsDistinct s h r d v =
    sorted-authors h r d _ (take-IsSorted s.first_future_message s.messages_received v.sorted)
