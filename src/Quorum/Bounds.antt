-- ===== src/Quorum/Bounds.antt =====
-- Why `f` and `quorum` fit together.
use rbft.Base.{
  ℕ, ◌+◌, ◌*◌, ◌^◌, ◌≤◌, ◌<◌, List, arith, length, IsDistinct, IsWithin, common, length-common,
}
use rbft.Quorum.{f, quorum}

-- For 1 to 2^62 - 1 validators: less than a third may be faulty, and f is the largest such number;
-- two quorums have more than f validators in common; and the others than f make a quorum.
pub quorum_bounds :
    (n : ℕ)
    → 0 < n
    → n < 2 ^ 62
    → (3 * f n < n) × (n ≤ 3 * f n + 3) × (n + f n < quorum n + quorum n) × (quorum n + f n ≤ n)
unfolding f quorum
quorum_bounds n pos small = ground arith

-- Two quorums of distinct validators share more than f of them.
pub quorum-common :
    (vs xs ys : List ℕ)
    → 0 < length vs
    → length vs < 2 ^ 62
    → IsDistinct xs
    → IsWithin vs xs
    → IsDistinct ys
    → IsWithin vs ys
    → quorum (length vs) ≤ length xs
    → quorum (length vs) ≤ length ys
    → f (length vs) < length (common xs ys)
quorum-common vs xs ys pos small dx wx dy wy qx qy =
    omega (arith, quorum_bounds (length vs) pos small, length-common vs xs ys dx wx dy wy)
