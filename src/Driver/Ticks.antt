-- ===== src/Driver/Ticks.antt =====
-- `AlignedInterval::calculate_next_tick` of crates/rbft-node/src/rbft_consensus/aligned_interval.rs, and
-- the health status of crates/rbft-node/src/metrics.rs.
use rbft.Base.{
  ℕ, max, min, refl, List, [], ◌∷◌, true, false, ltb, ◌+◌, ◌-◌, ◌*◌, ◌/◌, ◌%◌, ◌^◌, ◌≤◌, ◌<◌, ◌≡◌,
  Bool, ◌==◌, if◌then◌else◌, Exec, ok, panic, u64, arith, Gives,
}
use native.Mathlib.Nat.{div-add-mod, mod-lt, mul-mod_left, add-mul, one-mul, mul_comm}

-- How long to sleep, given the milliseconds since the epoch. The division panics at an interval of 0;
-- a u128 holds the intermediate numbers.
unfoldable pub calculate_next_tick : ℕ → ℕ → Exec ℕ
calculate_next_tick millis_since_epoch interval_ms =
    if interval_ms == 0
    then panic
    else ok (u64 ((millis_since_epoch / interval_ms + 1) * interval_ms - millis_since_epoch))

-- The next tick is later, at most an interval later, and at a multiple of the interval.
pub calculate_next_tick_bounds :
    (now interval : ℕ)
    → 0 < interval
    → interval < 2 ^ 64
    → Gives
        (calculate_next_tick now interval)
        (λ wait. (0 < wait) × (wait ≤ interval) × ((now + wait) % interval ≡ 0))
unfolding calculate_next_tick
calculate_next_tick_bounds now interval pos small =
    let q = now / interval in
    let parts : q * interval + now % interval ≡ now =
      omega (arith, div-add-mod now interval, mul_comm interval q) in
    let below = mod-lt now pos in
    let next : (q + 1) * interval ≡ q * interval + interval =
      simp (add-mul q 1 interval, one-mul) in
    let nonzero : (interval == 0) ≡ false = ground arith in
    let wait : u64 ((q + 1) * interval - now) ≡ interval - now % interval = omega arith in
    let at : now + (interval - now % interval) ≡ (q + 1) * interval = omega arith in
    (
      interval - now % interval,
      rw (nonzero, wait),
      (omega arith, omega arith, rw at (mul-mod_left (q + 1) interval)),
    )

-- The heights that `QbftMetrics` has recorded; the gauges are the driver's own numbers.
pub record Health : Type 0 where
  pub last_block_height : ℕ
  pub last_block_at_ms : ℕ
  pub expected_block_interval_ms : ℕ

unfoldable pub record_consensus_state : Health → ℕ → ℕ → Health
record_consensus_state h now block_height =
    if ltb h.last_block_height block_height
    then record h { last_block_height = block_height; last_block_at_ms = now }
    else record h { last_block_height = block_height }

-- `saturating_mul` by 5, and never below half a minute.
unfoldable pub stall_threshold_ms : Health → ℕ
stall_threshold_ms h = max (min (max h.expected_block_interval_ms 1 * 5) 18446744073709551615) 30000

-- The status is "stalled", or "ok".
unfoldable pub is_stalled : Health → ℕ → Bool
is_stalled h now = ltb (stall_threshold_ms h) (now - h.last_block_at_ms)

-- The calls of the run loop: (time, height), the first call first.
unfoldable pub record_each : Health → List (ℕ × ℕ) → Health
record_each h [] = h
record_each h ((now, height) ∷ rest) = record_each (record_consensus_state h now height) rest

-- Each height recorded is at most that of the one before.
abbrev pub NoGrowth : ℕ → List (ℕ × ℕ) → Type 0
NoGrowth height [] = Unit {0}
NoGrowth height ((now, next) ∷ rest) = (next ≤ height) × NoGrowth next rest

record_each-NoGrowth :
    (h : Health) (rest : List (ℕ × ℕ))
    → NoGrowth h.last_block_height rest
    → ((record_each h rest).last_block_at_ms ≡ h.last_block_at_ms)
      × ((record_each h rest).expected_block_interval_ms ≡ h.expected_block_interval_ms)
unfolding record_each record_consensus_state
record_each-NoGrowth h [] w = (refl, refl)
record_each-NoGrowth h ((now, next) ∷ rest) w =
    let stays : ltb h.last_block_height next ≡ false = ground arith in
    rw (record_each, stays) (record_each-NoGrowth (record h { last_block_height = next }) rest w.1)

-- A node whose height has grown at a time, and has not since, whatever was recorded, is healthy for the
-- stall threshold after that time, and stalled from then on.
pub is_stalled_after_growth :
    (h : Health) (at height now : ℕ) (rest : List (ℕ × ℕ))
    → h.last_block_height < height
    → NoGrowth height rest
    → let t = record_each (record_consensus_state h at height) rest in
      (now ≤ at + stall_threshold_ms h → is_stalled t now ≡ false)
      × (at + stall_threshold_ms h < now → is_stalled t now ≡ true)
unfolding is_stalled stall_threshold_ms record_consensus_state
is_stalled_after_growth h at height now rest grown w =
    let g : Health = record h { last_block_height = height; last_block_at_ms = at } in
    let (e, f) = record_each-NoGrowth g rest w in
    let grows : ltb h.last_block_height height ≡ true = ground arith in
    rw (grows, e, f) (λ n. ground arith, λ n. ground arith)
