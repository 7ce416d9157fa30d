-- ===== src/Chain/Prune.antt =====
-- Pruning the chain.
use mathlib.Core.List.{append-nil}
use rbft.Base.{
  ℕ, zero, suc, ◌-◌, ◌≤◌, List, [], ◌∷◌, ◌++◌, ◌≡◌, refl, arith, length, take, drop, ap, Bool-cases,
  inl, inr, ltb, ltb→lt,
}
use rbft.Types.{Block}
use rbft.Chain.{Blockchain, prune, height}

-- The height is the head's, and pruning keeps the head.
pub height-prune : (bc : Blockchain) → height (prune bc) ≡ height bc
unfolding prune height
height-prune bc = ground arith

length-take_le : (n : ℕ) (bs : List Block) → length (take n bs) ≤ n
length-take_le zero bs = omega arith
length-take_le (suc n) [] = omega arith
length-take_le (suc n) (b ∷ bs) = omega (arith, length-take_le n bs)

take-append_drop : (n : ℕ) (bs : List Block) → take n bs ++ drop n bs ≡ bs
take-append_drop zero bs = refl
take-append_drop (suc n) [] = refl
take-append_drop (suc n) (b ∷ bs) = ap (◌∷◌ b) (take-append_drop n bs)

-- Pruning keeps the head and the proposed block, leaves at most 32 blocks, and drops only from the
-- oldest end, nothing at all where there are at most 32.
pub prune_keeps :
    (bc : Blockchain)
    → ((prune bc).head ≡ bc.head)
      × ((prune bc).proposed_block ≡ bc.proposed_block)
      × (suc (length (prune bc).older) ≤ 32)
      × ((gone : List Block) × ((prune bc).older ++ gone ≡ bc.older)
          × (suc (length bc.older) ≤ 32 → gone ≡ []))
unfolding prune
prune_keeps bc = elim (Bool-cases (ltb 32 (suc (length bc.older)))) [
  | inl e ↦
      let n = length bc.older - (suc (length bc.older) - 32) in
      rw e (
        refl,
        refl,
        omega (arith, length-take_le n bc.older, ltb→lt 32 (suc (length bc.older)) e),
        (drop n bc.older, take-append_drop n bc.older, λ small. absurd (ground arith)),
      )
  | inr e ↦ rw e (refl, refl, ground arith, ([], append-nil bc.older, λ small. refl))
]
