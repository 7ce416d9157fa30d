-- ===== src/State/Retained.antt =====
-- What an insertion into the store, and the dropping of old heights, leaves of the messages there.
use rbft.Base.{
  ℕ, zero, suc, ◌≤◌, ◌<◌, List, [], ◌∷◌, ◌≡◌, refl, true, false, arith, take, drop, partition_point,
  AllOf, Bool-cases, inl, inr,
}
use rbft.Types.{QbftMessage}
use rbft.Message.{Key, key_eq, components}
use rbft.Message
use rbft.State.{has_key, insert_sorted, below_height}
use rbft.State.Order.{keys}
use rbft.State.Store.{components-height}

pub AllOf-insert_sorted :
    (P : QbftMessage → Type 0) (m : QbftMessage) (ms : List QbftMessage)
    → P m
    → AllOf P ms
    → AllOf P (insert_sorted m ms)
unfolding insert_sorted
AllOf-insert_sorted P m [] h w = (h, tt)
AllOf-insert_sorted P m (x ∷ xs) h w =
    elim (Bool-cases (Message.key_ltb (components x) (components m))) [
      | inl e ↦ rw e (w.0, AllOf-insert_sorted P m xs h w.1)
      | inr e ↦ rw e (h, w)
    ]

pub AllOf-drop :
    (P : QbftMessage → Type 0) (n : ℕ) (ms : List QbftMessage) → AllOf P ms → AllOf P (drop n ms)
AllOf-drop P zero ms w = w
AllOf-drop P (suc n) [] w = tt
AllOf-drop P (suc n) (m ∷ ms) w = AllOf-drop P n ms w.1

key_eq_height : (a b : Key) → key_eq a b ≡ true → a.0 ≡ b.0
key_eq_height (h, r, t, a) (h', r', t', a') p = ground arith

-- What pruning takes away is below the height.
pub has_key-below :
    (h : ℕ) (ms : List QbftMessage) (m : QbftMessage)
    → h ≤ Message.height m
    → has_key (keys (take (partition_point (below_height h) ms) ms)) (components m) ≡ false
has_key-below h [] m l = refl
has_key-below h (x ∷ ms) m l = elim (Bool-cases (below_height h x)) [
  | inl e ↦
      let low : Message.height x < h = ground arith in
      rw e (
        ground (
          arith,
          has_key-below h ms m l,
          key_eq_height (components m) (components x),
          components-height m,
          components-height x,
        ))
  | inr e ↦ rw e
]
