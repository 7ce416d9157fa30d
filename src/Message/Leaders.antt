-- ===== src/Message/Leaders.antt =====
-- Who leads a round.
use rbft.Base.{
  ℕ, zero, suc, ◌+◌, ◌-◌, ◌%◌, ◌^◌, ◌≤◌, ◌<◌, List, [], ◌∷◌, ◌≡◌, true, false, arith, length,
  contains, position, get_or, some, Option-cases, Bool-cases, inl, inr, u64, ◌==◌, ==→eq, ◌∙◌,
  is_empty,
}
use native.Mathlib.Decide.{dec_le}
use native.Mathlib.Nat.{mod-eq_of_lt, add-mod_right}
use rbft.Types.{Address, address_zero}
use rbft.Chain.{Blockchain}
use rbft.Chain
use rbft.Message.{proposer, round_zero_index}

contains-get_or :
    (vs : List Address) (i : ℕ) (d : Address) → i < length vs → contains vs (get_or vs i d) ≡ true
contains-get_or [] i d h = elim h [ ]
contains-get_or (v ∷ vs) zero d h = ground arith
contains-get_or (v ∷ vs) (suc i) d h = ground (arith, contains-get_or vs i d)

-- The leader of any round is a validator, if there is one.
pub proposer_mem :
    (round : ℕ) (bc : Blockchain)
    → 0 < length (Chain.validators bc)
    → contains (Chain.validators bc) (proposer round bc) ≡ true
unfolding proposer
proposer_mem round bc pos =
    let n = length (Chain.validators bc) in
    let i = u64 (round_zero_index bc + round) % n in
    ground (arith, contains-get_or (Chain.validators bc) i address_zero (omega arith))

-- Where a validator stands in the list.
place :
    (vs : List Address) (v d : Address)
    → contains vs v ≡ true
    → (i : ℕ) × (i < length vs) × (get_or vs i d ≡ v)
place [] v d h = cc
place (x ∷ vs) v d h = elim (Bool-cases (x == v)) [
  | inl e ↦ (0, omega arith, ==→eq x v e)
  | inr e ↦ let (i, l, g) = place vs v d (ground arith) in (suc i, omega arith, g)
]

position-lt : (vs : List Address) (a : Address) (i : ℕ) → position vs a ≡ some i → i < length vs
position-lt [] a i e = cc
position-lt (v ∷ vs) a zero e = omega arith
position-lt (v ∷ vs) a (suc i) e = ground (arith, position-lt vs a i)

round_zero_index_le :
    (bc : Blockchain)
    → 0 < length (Chain.validators bc)
    → round_zero_index bc ≤ length (Chain.validators bc)
unfolding round_zero_index
round_zero_index_le bc pos =
    elim (Option-cases (position (Chain.validators bc) bc.head.header.proposer)) [
      | inl e ↦ ground arith
      | inr (i, e) ↦ ground (arith, position-lt (Chain.validators bc) bc.head.header.proposer i e)
    ]

-- The round from z in which index i has its turn.
turn : (n z i : ℕ) → z ≤ n → i < n → (r : ℕ) × (r < n) × ((z + r) % n ≡ i)
turn n z i hz hi = elim (dec_le z i) [
  | yes l ↦ let e : z + (i - z) ≡ i = omega arith in (i - z, omega arith, rw e (mod-eq_of_lt hi))
  | no l ↦
      let e : z + (i + n - z) ≡ i + n = omega arith in
      (i + n - z, omega arith, rw e (add-mod_right i n ∙ mod-eq_of_lt hi))
]

is_empty_mem : (vs : List Address) (v : Address) → contains vs v ≡ true → is_empty vs ≡ false
is_empty_mem vs v m = ground arith

-- Every validator leads one of the rounds 0 to n - 1 of a height, where n is the number of
-- validators, at most 2^62.
pub proposer_turn :
    (bc : Blockchain) (v : Address)
    → length (Chain.validators bc) ≤ 2 ^ 62
    → contains (Chain.validators bc) v ≡ true
    → (r : ℕ) × (r < length (Chain.validators bc)) × (proposer r bc ≡ v)
unfolding proposer
proposer_turn bc v small m =
    let (i, l, g) = place (Chain.validators bc) v address_zero m in
    let z = round_zero_index_le bc (omega arith) in
    let (r, lt, e) = turn (length (Chain.validators bc)) (round_zero_index bc) i z l in
    let whole : u64 (round_zero_index bc + r) ≡ round_zero_index bc + r = omega arith in
    let nonempty = is_empty_mem (Chain.validators bc) v m in (r, lt, rw (nonempty, whole, e) g)
