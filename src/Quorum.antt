-- ===== src/Quorum.antt =====
-- `f` and `quorum` of crates/rbft/src/node_auxilliary_functions.rs, on usize.
pub mod Bounds
use rbft.Base.{ℕ, ◌+◌, ◌-◌, ◌*◌, ◌/◌, ◌==◌, if◌then◌else◌, u64}

-- The number of faulty nodes that n validators tolerate.
unfoldable pub f : ℕ → ℕ
f n = if n == 0 then 0 else (n - 1) / 3

-- `n * 2 - 1` wraps at n = 0 in a release build, and panics in a debug build.
unfoldable pub quorum : ℕ → ℕ
quorum n = u64 (u64 (u64 (n * 2) + 18446744073709551615) / 3 + 1)
