-- ===== src/State/Order.antt =====
-- The order of message keys, and lists sorted by it.
use rbft.Base.{
  ℕ, suc, zero, List, [], ◌∷◌, ◌≡◌, refl, true, false, ◌||◌, not, ◌&&◌, arith, map, take, drop,
  Bool-cases, inl, inr,
}
use rbft.Types.{QbftMessage}
use rbft.Message.{Key, key_ltb, key_eq, components}
use rbft.State.{has_key, remove_key, remove_keys, insert_sorted}

pub key_ltb_trans : (a b c : Key) → key_ltb a b ≡ true → key_ltb b c ≡ true → key_ltb a c ≡ true
key_ltb_trans (h, r, t, a) (h', r', t', a') (h'', r'', t'', a'') p q = ground arith

pub key_ltb_of_not : (a b : Key) → key_ltb a b ≡ false → key_eq b a ≡ false → key_ltb b a ≡ true
key_ltb_of_not (h, r, t, a) (h', r', t', a') p q = ground arith

pub key_eq_of_ltb : (a b : Key) → key_ltb a b ≡ true → key_eq a b ≡ false
key_eq_of_ltb (h, r, t, a) (h', r', t', a') p = ground arith

pub key_eq_sound : (a b : Key) → key_eq a b ≡ true → a ≡ b
key_eq_sound (h, r, t, a) (h', r', t', a') p = ground arith

pub key_eq_refl : (a : Key) → key_eq a a ≡ true
key_eq_refl (h, r, t, a) = ground arith

abbrev pub keys : List QbftMessage → List Key
keys = map components

-- Every key of the list is above k.
abbrev pub Above : Key → List QbftMessage → Type 0
Above k [] = Unit {0}
Above k (m ∷ ms) = (key_ltb k (components m) ≡ true) × Above k ms

-- Strictly ascending keys: sorted, and no key twice.
abbrev pub IsSorted : List QbftMessage → Type 0
IsSorted [] = Unit {0}
IsSorted (m ∷ ms) = Above (components m) ms × IsSorted ms

pub Above-trans : (a b : Key) (ms : List QbftMessage) → key_ltb a b ≡ true → Above b ms → Above a ms
Above-trans a b [] h w = tt
Above-trans a b (m ∷ ms) h w = (key_ltb_trans a b (components m) h w.0, Above-trans a b ms h w.1)

Above-has_key : (k : Key) (ms : List QbftMessage) → Above k ms → has_key (keys ms) k ≡ false
Above-has_key k [] w = refl
Above-has_key k (m ∷ ms) w =
    ground (arith, key_eq_of_ltb k (components m) w.0, Above-has_key k ms w.1)

insert_sorted-Above :
    (k : Key) (m : QbftMessage) (ms : List QbftMessage)
    → key_ltb k (components m) ≡ true
    → Above k ms
    → Above k (insert_sorted m ms)
unfolding insert_sorted
insert_sorted-Above k m [] h w = (h, tt)
insert_sorted-Above k m (x ∷ xs) h w = elim (Bool-cases (key_ltb (components x) (components m))) [
  | inl e ↦ rw e (w.0, insert_sorted-Above k m xs h w.1)
  | inr e ↦ rw e (h, w)
]

-- An insertion of a new key keeps the list sorted.
pub insert_sorted-IsSorted :
    (m : QbftMessage) (ms : List QbftMessage)
    → has_key (keys ms) (components m) ≡ false
    → IsSorted ms
    → IsSorted (insert_sorted m ms)
unfolding insert_sorted
insert_sorted-IsSorted m [] new s = (tt, tt)
insert_sorted-IsSorted m (x ∷ xs) new s =
    elim (Bool-cases (key_ltb (components x) (components m))) [
      | inl e ↦ rw e (
        insert_sorted-Above (components x) m xs e s.0,
        insert_sorted-IsSorted m xs (ground arith) s.1,
      )
      | inr e ↦
          let below = key_ltb_of_not (components x) (components m) e (ground arith) in
          rw e ((below, Above-trans (components m) (components x) xs below s.0), s)
    ]

pub has_key-insert_sorted :
    (m : QbftMessage) (ms : List QbftMessage) (k : Key)
    → has_key (keys (insert_sorted m ms)) k ≡ (key_eq k (components m) || has_key (keys ms) k)
unfolding insert_sorted
has_key-insert_sorted m [] k = refl
has_key-insert_sorted m (x ∷ xs) k = ground (arith, has_key-insert_sorted m xs k)

pub key_eq_subst : (i j k : Key) → key_eq j i ≡ true → key_eq k i ≡ key_eq k j
key_eq_subst (h, r, t, a) (h', r', t', a') (h'', r'', t'', a'') p = ground arith

has_key-remove_key :
    (j k : Key) (ks : List Key) → has_key (remove_key j ks) k ≡ (not (key_eq k j) && has_key ks k)
has_key-remove_key j k [] = ground arith
has_key-remove_key j k (i ∷ ks) = ground (arith, key_eq_subst i j k, has_key-remove_key j k ks)

pub has_key-remove_keys :
    (ms : List QbftMessage) (k : Key) (ks : List Key)
    → has_key (remove_keys ms ks) k ≡ (not (has_key (keys ms) k) && has_key ks k)
unfolding remove_keys
has_key-remove_keys [] k ks = refl
has_key-remove_keys (m ∷ ms) k ks = ground (
  arith,
  has_key-remove_keys ms k (remove_key (components m) ks),
  has_key-remove_key (components m) k ks,
)

Above-drop : (n : ℕ) (k : Key) (ms : List QbftMessage) → Above k ms → Above k (drop n ms)
Above-drop zero k ms w = w
Above-drop (suc n) k [] w = tt
Above-drop (suc n) k (m ∷ ms) w = Above-drop n k ms w.1

pub drop-IsSorted : (n : ℕ) (ms : List QbftMessage) → IsSorted ms → IsSorted (drop n ms)
drop-IsSorted zero ms s = s
drop-IsSorted (suc n) [] s = tt
drop-IsSorted (suc n) (m ∷ ms) s = drop-IsSorted n ms s.1

-- In a sorted list the keys that a drop leaves are those that it does not take.
pub has_key-drop :
    (n : ℕ) (ms : List QbftMessage) (k : Key)
    → IsSorted ms
    → has_key (keys (drop n ms)) k ≡ (not (has_key (keys (take n ms)) k) && has_key (keys ms) k)
has_key-drop zero ms k s = refl
has_key-drop (suc n) [] k s = ground arith
has_key-drop (suc n) (m ∷ ms) k s = elim (Bool-cases (key_eq k (components m))) [
  | inl e ↦ rw e (
      rw (key_eq_sound k (components m) e)
        (Above-has_key (components m) (drop n ms) (Above-drop n (components m) ms s.0)))
  | inr e ↦ rw e (has_key-drop n ms k s.1)
]
