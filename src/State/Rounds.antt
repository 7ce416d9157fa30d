-- ===== src/State/Rounds.antt =====
-- `messages_received_at_round`: two partition points against a filter.
use rbft.Base.{
  ℕ, zero, suc, ◌≤◌, ◌<◌, List, [], ◌∷◌, ◌≡◌, refl, ap, Bool, true, false, arith, take, drop, keep,
  partition_point, AllOf, Bool-cases, inl, inr, ltb, leb, ◌==◌, ◌∙◌,
}
use rbft.Types.{QbftMessage}
use rbft.Message.{Key, key_ltb, components}
use rbft.Message
use rbft.State.{NodeState, messages_received, messages_received_at_round}
use rbft.State.Order.{Above, IsSorted}
use rbft.State.Store.{IsStore, components-height}

-- The round of a message is that of its key: true of all but block requests, whose keys have the end
-- of the requested range there.
abbrev pub HasKeyRound : QbftMessage → Type 0
HasKeyRound m = (components m).1 ≡ Message.round m

abbrev RoundsUp : List QbftMessage → Type 0
RoundsUp [] = Unit {0}
RoundsUp (m ∷ ms) = AllOf (λ x. Message.round m ≤ Message.round x) ms × RoundsUp ms

key_round_le : (a b : Key) → a.0 ≡ b.0 → key_ltb a b ≡ true → a.1 ≤ b.1
key_round_le (h, r, t, a) (h', r', t', a') e p = ground arith

Above-rounds :
    (h : ℕ) (k : Key) (r : ℕ) (ms : List QbftMessage)
    → k.0 ≡ h
    → r ≡ k.1
    → Above k ms
    → AllOf (λ m. Message.height m ≡ h) ms
    → AllOf HasKeyRound ms
    → AllOf (λ x. r ≤ Message.round x) ms
Above-rounds h k r [] e f w same kr = tt
Above-rounds h k r (m ∷ ms) e f w same kr = (
  omega
      (arith, key_round_le k (components m) (omega (arith, components-height m, same.0)) w.0, kr.0),
  Above-rounds h k r ms e f w.1 same.1 kr.1,
)

IsSorted-RoundsUp :
    (h : ℕ) (ms : List QbftMessage)
    → IsSorted ms
    → AllOf (λ m. Message.height m ≡ h) ms
    → AllOf HasKeyRound ms
    → RoundsUp ms
IsSorted-RoundsUp h [] s same kr = tt
IsSorted-RoundsUp h (m ∷ ms) s same kr = (
  Above-rounds h (components m) (Message.round m) ms (omega (arith, components-height m, same.0))
      (omega (arith, kr.0)) s.0 same.1 kr.1,
  IsSorted-RoundsUp h ms s.1 same.1 kr.1,
)

abbrev at_round : ℕ → List QbftMessage → List QbftMessage
at_round r = keep (λ m. Message.round m == r)

at_round_above :
    (r : ℕ) (ms : List QbftMessage) → AllOf (λ m. r < Message.round m) ms → at_round r ms ≡ []
at_round_above r [] w = refl
at_round_above r (m ∷ ms) w = ground (arith, at_round_above r ms w.1)

AllOf-lt :
    (r r' : ℕ) (ms : List QbftMessage)
    → r < r'
    → AllOf (λ m. r' ≤ Message.round m) ms
    → AllOf (λ m. r < Message.round m) ms
AllOf-lt r r' [] l w = tt
AllOf-lt r r' (m ∷ ms) l w = (omega arith, AllOf-lt r r' ms l w.1)

take-at_round :
    (r : ℕ) (ms : List QbftMessage)
    → RoundsUp ms
    → AllOf (λ m. r ≤ Message.round m) ms
    → take (partition_point (λ m. leb (Message.round m) r) ms) ms ≡ at_round r ms
take-at_round r [] up w = refl
take-at_round r (m ∷ ms) up w = elim (Bool-cases (leb (Message.round m) r)) [
  | inl e ↦
      let same : (Message.round m == r) ≡ true = ground arith in
      rw (e, same) (ap (◌∷◌ m) (take-at_round r ms up.1 w.1))
  | inr e ↦
      let other : (Message.round m == r) ≡ false = ground arith in
      let over : r < Message.round m = ground arith in
      rw (e, other, at_round_above r ms (AllOf-lt r (Message.round m) ms over up.0))
]

AllOf-le :
    (r r' : ℕ) (ms : List QbftMessage)
    → r ≤ r'
    → AllOf (λ m. r' ≤ Message.round m) ms
    → AllOf (λ m. r ≤ Message.round m) ms
AllOf-le r r' [] l w = tt
AllOf-le r r' (m ∷ ms) l w = (omega arith, AllOf-le r r' ms l w.1)

slice-at_round :
    (r : ℕ) (ms : List QbftMessage)
    → RoundsUp ms
    → drop
        (partition_point (λ m. ltb (Message.round m) r) ms)
        (take (partition_point (λ m. leb (Message.round m) r) ms) ms)
      ≡ at_round r ms
slice-at_round r [] up = refl
slice-at_round r (m ∷ ms) up = elim (Bool-cases (ltb (Message.round m) r)) [
  | inl e ↦
      let below : leb (Message.round m) r ≡ true = ground arith in
      let other : (Message.round m == r) ≡ false = ground arith in
      rw (e, below, other) (slice-at_round r ms up.1)
  | inr e ↦
      let over : r ≤ Message.round m = ground arith in
      rw e (take-at_round r (m ∷ ms) up (over, AllOf-le r (Message.round m) ms over up.0))
]

-- A take that ends within a slice is a take of the slice.
take-take :
    (p : QbftMessage → Bool) (n : ℕ) (ms : List QbftMessage)
    → take (partition_point p (take n ms)) ms ≡ take (partition_point p (take n ms)) (take n ms)
take-take p zero ms = refl
take-take p (suc n) [] = refl
take-take p (suc n) (m ∷ ms) = elim (Bool-cases (p m)) [
  | inl e ↦ rw e (ap (◌∷◌ m) (take-take p n ms))
  | inr e ↦ rw e
]

Above-take : (n : ℕ) (k : Key) (ms : List QbftMessage) → Above k ms → Above k (take n ms)
Above-take zero k ms w = tt
Above-take (suc n) k [] w = tt
Above-take (suc n) k (m ∷ ms) w = (w.0, Above-take n k ms w.1)

pub take-IsSorted : (n : ℕ) (ms : List QbftMessage) → IsSorted ms → IsSorted (take n ms)
take-IsSorted zero ms s = tt
take-IsSorted (suc n) [] s = tt
take-IsSorted (suc n) (m ∷ ms) s = (Above-take n (components m) ms s.0, take-IsSorted n ms s.1)

-- In a well-formed store, where the messages received are of one height and none is a block request
-- for a range (its key then differs from its round), the slice between the two partition points is
-- exactly the messages received of that round.
pub messages_received_at_round_lem :
    (s : NodeState) (r h : ℕ)
    → IsStore s
    → AllOf (λ m. Message.height m ≡ h) (messages_received s)
    → AllOf HasKeyRound (messages_received s)
    → messages_received_at_round s r ≡ keep (λ m. Message.round m == r) (messages_received s)
unfolding messages_received messages_received_at_round
messages_received_at_round_lem s r h v same kr =
    let n = s.first_future_message in
    let ms = s.messages_received in
    ap (drop (partition_point (λ m. ltb (Message.round m) r) (take n ms)))
      (take-take (λ m. leb (Message.round m) r) n ms)
    ∙ slice-at_round r (take n ms)
        (IsSorted-RoundsUp h (take n ms) (take-IsSorted n ms v.sorted) same kr)
