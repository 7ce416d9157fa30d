-- ===== src/State/Store.antt =====
-- The message store: the list is sorted with no key twice, and the key set is that of the list.
use rbft.Base.{
  ℕ, suc, ◌≤◌, ◌<◌, List, [], ◌∷◌, ◌≡◌, refl, sym, ◌∙◌, Bool, true, false, arith, take, drop,
  length, partition_point, AllOf, Bool-cases, inl, inr,
}
use rbft.Types.{QbftMessage}
use rbft.Chain
use rbft.Message.{Key, key_ltb, key_eq, components}
use rbft.Message
use rbft.State.{
  NodeState, has_key, insert_sorted, insert_message_sorted, below_height, up_to_height,
  prune_messages_below_height, messages_received,
}
use rbft.State.Order.{
  keys, Above, IsSorted, insert_sorted-IsSorted, has_key-insert_sorted, has_key-remove_keys,
  drop-IsSorted, has_key-drop,
}

pub record IsStore (s : NodeState) : Type 0 where
  pub sorted : IsSorted s.messages_received
  pub indexed : (k : Key) → has_key s.message_keys k ≡ has_key (keys s.messages_received) k
  pub slice : s.first_future_message ≤ length s.messages_received

length-insert_sorted :
    (m : QbftMessage) (ms : List QbftMessage) → length (insert_sorted m ms) ≡ suc (length ms)
unfolding insert_sorted
length-insert_sorted m [] = refl
length-insert_sorted m (x ∷ xs) = ground (arith, length-insert_sorted m xs)

insert_at :
    (s : NodeState) (m : QbftMessage)
    → IsStore s
    → has_key s.message_keys (components m) ≡ false
    → IsStore (record s {
      messages_received = insert_sorted m s.messages_received;
      message_keys = components m ∷ s.message_keys;
    })
insert_at s m v new = record {
  sorted =
      insert_sorted-IsSorted m s.messages_received (sym (v.indexed (components m)) ∙ new) v.sorted;
  indexed = λ k. ground (arith, v.indexed k, has_key-insert_sorted m s.messages_received k);
  slice = omega (arith, v.slice, length-insert_sorted m s.messages_received);
}

-- A message goes in at its place, and a second one with its key does not.
pub insert_message_sorted-IsStore :
    (s : NodeState) (m : QbftMessage) → IsStore s → IsStore (insert_message_sorted s m)
unfolding insert_message_sorted
insert_message_sorted-IsStore s m v = elim (Bool-cases (has_key s.message_keys (components m))) [
  | inl e ↦ rw e v
  | inr e ↦ rw e (insert_at s m v e)
]

-- The first part of a key is the height.
pub components-height : (m : QbftMessage) → (components m).0 ≡ Message.height m
unfolding components Message.height
components-height (QbftMessage.proposal p) = refl
components-height (QbftMessage.prepare p) = refl
components-height (QbftMessage.commit p) = refl
components-height (QbftMessage.round_change p) = refl
components-height (QbftMessage.new_block p) = refl
components-height (QbftMessage.block_request p) = refl
components-height (QbftMessage.block_response p) = refl

key_height_le : (a b : Key) → key_ltb a b ≡ true → a.0 ≤ b.0
key_height_le (h, r, t, a) (h', r', t', a') p = ground arith

Above-height :
    (k : Key) (ms : List QbftMessage) → Above k ms → AllOf (λ m. k.0 ≤ Message.height m) ms
Above-height k [] w = tt
Above-height k (m ∷ ms) w =
    (omega (arith, key_height_le k (components m) w.0, components-height m), Above-height k ms w.1)

AllOf-le :
    (h h' : ℕ) (ms : List QbftMessage)
    → h ≤ h'
    → AllOf (λ m. h' ≤ Message.height m) ms
    → AllOf (λ m. h ≤ Message.height m) ms
AllOf-le h h' [] l w = tt
AllOf-le h h' (m ∷ ms) l w = (omega arith, AllOf-le h h' ms l w.1)

-- What stays after the messages below a height are dropped is at or above it.
drop-below_height :
    (h : ℕ) (ms : List QbftMessage)
    → IsSorted ms
    → AllOf (λ m. h ≤ Message.height m) (drop (partition_point (below_height h) ms) ms)
drop-below_height h [] s = tt
drop-below_height h (m ∷ ms) s = elim (Bool-cases (below_height h m)) [
  | inl e ↦ rw e (drop-below_height h ms s.1)
  | inr e ↦
      let here : h ≤ Message.height m = ground arith in
      rw e (
        here,
        AllOf-le h (components m).0 ms (omega (arith, components-height m))
            (Above-height (components m) ms s.0),
      )
]

take-up_to_height :
    (h : ℕ) (ms : List QbftMessage)
    → AllOf (λ m. h ≤ Message.height m) ms
    → AllOf (λ m. Message.height m ≡ h) (take (partition_point (up_to_height h) ms) ms)
take-up_to_height h [] w = tt
take-up_to_height h (m ∷ ms) w = elim (Bool-cases (up_to_height h m)) [
  | inl e ↦ rw e (ground arith, take-up_to_height h ms w.1)
  | inr e ↦ rw e tt
]

drop-up_to_height :
    (h : ℕ) (ms : List QbftMessage)
    → IsSorted ms
    → AllOf (λ m. h < Message.height m) (drop (partition_point (up_to_height h) ms) ms)
drop-up_to_height h [] s = tt
drop-up_to_height h (m ∷ ms) s = elim (Bool-cases (up_to_height h m)) [
  | inl e ↦ rw e (drop-up_to_height h ms s.1)
  | inr e ↦
      let here : h < Message.height m = ground arith in
      rw e (
        here,
        AllOf-le (suc h) (components m).0 ms (omega (arith, components-height m))
            (Above-height (components m) ms s.0),
      )
]

partition_point-le {ℓ} :
    {A : Type ℓ} (p : A → Bool) (xs : List A) → partition_point p xs ≤ length xs
partition_point-le p [] = omega arith
partition_point-le p (x ∷ xs) = ground (arith, partition_point-le p xs)

-- Pruning keeps the store.
pub prune_messages-IsStore : (s : NodeState) → IsStore s → IsStore (prune_messages_below_height s)
unfolding prune_messages_below_height
prune_messages-IsStore s v =
    let h = Chain.height s.blockchain in
    let n = partition_point (below_height h) s.messages_received in
    record {
      sorted = drop-IsSorted n s.messages_received v.sorted;
      indexed = λ k. ground (
        arith,
        v.indexed k,
        has_key-remove_keys (take n s.messages_received) k s.message_keys,
        has_key-drop n s.messages_received k v.sorted,
      );
      slice = partition_point-le (up_to_height h) (drop n s.messages_received);
    }

-- After pruning: no message below the current height is left, those received are of the current
-- height, and the others of later heights.
pub record IsPruned (s : NodeState) : Type 0 where
  pub current : AllOf (λ m. Message.height m ≡ Chain.height s.blockchain) (messages_received s)
  pub future :
      AllOf
        (λ m. Chain.height s.blockchain < Message.height m)
        (drop s.first_future_message s.messages_received)

pub prune_messages-IsPruned : (s : NodeState) → IsStore s → IsPruned (prune_messages_below_height s)
unfolding prune_messages_below_height messages_received
prune_messages-IsPruned s v =
    let h = Chain.height s.blockchain in
    let n = partition_point (below_height h) s.messages_received in
    record {
      current = take-up_to_height h _ (drop-below_height h s.messages_received v.sorted);
      future = drop-up_to_height h _ (drop-IsSorted n s.messages_received v.sorted);
    }
