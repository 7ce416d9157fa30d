-- ===== src/Driver/Resend.antt =====
-- The timer of the resends in the run loop of crates/rbft-node/src/rbft_consensus.rs. Times are readings
-- of a monotonic clock, which start at 0.
use rbft.Base.{
  ℕ, ◌+◌, ◌-◌, ◌≤◌, ◌<◌, ◌≡◌, List, [], ◌∷◌, Option, none, some, Bool, true, false, leb,
  if◌then◌else◌, contains, Option-cases, AllOf, AllOf-map, arith, Bool-cases, inl, inr,
}

pub record Timer : Type 0 where
  pub resend_timeout : Option ℕ
  pub last_commit_time : Option ℕ

-- It starts at the start of the node, where resending is enabled.
unfoldable pub new : Option ℕ → ℕ → Timer
new none now = record { resend_timeout = none; last_commit_time = none }
new (some timeout) now = record { resend_timeout = some timeout; last_commit_time = some now }

-- A block was committed to the execution layer, or the cached messages were sent again.
abbrev pub restarted : Timer → ℕ → Timer
restarted t now = record t { last_commit_time = some now }

-- `last_commit.elapsed() >= resend_timeout`.
abbrev pub has_elapsed : Option ℕ → ℕ → ℕ → Bool
has_elapsed none timeout now = false
has_elapsed (some last) timeout now = leb timeout (now - last)

abbrev should_resend_after : Option ℕ → Option ℕ → ℕ → Bool
should_resend_after none last now = false
should_resend_after (some timeout) last now = has_elapsed last timeout now

unfoldable pub should_resend : Timer → ℕ → Bool
should_resend t now = should_resend_after t.resend_timeout t.last_commit_time now

-- The clock at a tick: when `advance` committed a block, if it did, when the timer is read, and when the
-- resending, if any, is done.
pub record Readings : Type 0 where
  pub committed_at : Option ℕ
  pub checked_at : ℕ
  pub resent_at : ℕ

-- What a tick does with the timer.
pub data LoopEvent : Type 0 where
  committed : ℕ → LoopEvent
  resent : ℕ → ℕ → LoopEvent
  kept_quiet : ℕ → LoopEvent

abbrev pub commit_in_advance : Option ℕ → Timer → Timer
commit_in_advance none t = t
commit_in_advance (some now) t = restarted t now

abbrev pub with_commit : Option ℕ → List LoopEvent → List LoopEvent
with_commit none events = events
with_commit (some now) events = committed now ∷ events

-- The check after `advance`, with whether it sends again.
unfoldable pub check_resend : Timer → Readings → Timer × LoopEvent
check_resend t r =
    if should_resend t r.checked_at
    then (restarted t r.resent_at, resent r.checked_at r.resent_at)
    else (t, kept_quiet r.checked_at)

-- The loop, and what it does at its ticks.
unfoldable pub run_loop : Timer → List Readings → List LoopEvent
run_loop t [] = []
run_loop t (r ∷ rs) =
    let checked = check_resend (commit_in_advance r.committed_at t) r in
    with_commit r.committed_at (checked.1 ∷ run_loop checked.0 rs)

-- One of the times is less than the timeout before the reading.
abbrev pub IsRecent : ℕ → ℕ → List ℕ → Type 0
IsRecent timeout now past = (time : ℕ) × (contains past time ≡ true) × (now < time + timeout)

-- A resend comes at least the timeout after all commits and resends before it, and after the start; a
-- tick without one comes less than the timeout after one of these.
abbrev pub IsPaced : ℕ → List ℕ → List LoopEvent → Type 0
IsPaced timeout past [] = Unit {0}
IsPaced timeout past (committed now ∷ events) = IsPaced timeout (now ∷ past) events
IsPaced timeout past (resent now done ∷ events) =
    AllOf (λ time. time + timeout ≤ now) past × IsPaced timeout (done ∷ past) events
IsPaced timeout past (kept_quiet now ∷ events) =
    IsRecent timeout now past × IsPaced timeout past events

abbrev pub from_commit : ℕ → Option ℕ → ℕ
from_commit last none = last
from_commit last (some now) = now

-- The clock does not go back.
abbrev pub InTime : ℕ → List Readings → Type 0
InTime last [] = Unit {0}
InTime last (r ∷ rs) =
    (last ≤ from_commit last r.committed_at)
    × (from_commit last r.committed_at ≤ r.checked_at)
    × (r.checked_at ≤ r.resent_at)
    × InTime r.resent_at rs

InTime-from : (last now : ℕ) (rs : List Readings) → last ≤ now → InTime now rs → InTime last rs
InTime-from last now [] l h = tt
InTime-from last now (r ∷ rs) l h = elim (Option-cases r.committed_at) [
  | inl n ↦ let g = rw n at h in rw n (omega arith, omega arith, g.2, g.3)
  | inr (c, n) ↦ let g = rw n at h in rw n (omega arith, g.1, g.2, g.3)
]

abbrev timer : ℕ → ℕ → Timer
timer timeout last = record { resend_timeout = some timeout; last_commit_time = some last }

-- The last of some times.
IsLast : ℕ → List ℕ → Type 0
IsLast last past = (contains past last ≡ true) × AllOf (λ time. time ≤ last) past

IsLast-next :
    (last now : ℕ) (past : List ℕ) → last ≤ now → IsLast last past → IsLast now (now ∷ past)
unfolding IsLast
IsLast-next last now past l h =
    (ground arith, (omega arith, AllOf-map _ _ past (λ time below. omega arith) h.1))

check_resend-IsPaced :
    (timeout last : ℕ) (past : List ℕ) (r : Readings) (rs : List Readings)
    → ((last : ℕ) (past : List ℕ)
        → IsLast last past
        → InTime last rs
        → IsPaced timeout past (run_loop (timer timeout last) rs))
    → IsLast last past
    → last ≤ r.checked_at
    → r.checked_at ≤ r.resent_at
    → InTime r.resent_at rs
    → let checked = check_resend (timer timeout last) r in
      IsPaced timeout past (checked.1 ∷ run_loop checked.0 rs)
unfolding check_resend should_resend IsLast
check_resend-IsPaced timeout last past r rs later h l m rest =
    elim (Bool-cases (leb timeout (r.checked_at - last))) [
      | inl e ↦ rw e (
        AllOf-map _ _ past (λ time below. ground arith) h.1,
        later r.resent_at (r.resent_at ∷ past) (IsLast-next last r.resent_at past (omega arith) h)
            rest,
      )
      | inr e ↦ rw e (
        (last, h.0, ground arith),
        later last past h (InTime-from last r.resent_at rs (omega arith) rest),
      )
    ]

run_loop-IsPaced_from :
    (timeout last : ℕ) (past : List ℕ) (rs : List Readings)
    → IsLast last past
    → InTime last rs
    → IsPaced timeout past (run_loop (timer timeout last) rs)
unfolding run_loop check_resend
run_loop-IsPaced_from timeout last past [] h m = tt
run_loop-IsPaced_from timeout last past (r ∷ rs) h m =
    let later = λ (l : ℕ) (p : List ℕ). run_loop-IsPaced_from timeout l p rs in
    elim (Option-cases r.committed_at) [
      | inl n ↦
          let g = rw n at m in
          rw n (check_resend-IsPaced timeout last past r rs later h g.1 g.2 g.3)
      | inr (c, n) ↦
          let g = rw n at m in
          rw n (
            check_resend-IsPaced timeout c (c ∷ past) r rs later (IsLast-next last c past g.0 h) g.1
              g.2 g.3)
    ]

-- Where resending is enabled, and the clock does not go back, a resend of the run loop comes at least
-- the timeout after the start of the node and after every commit and every resend before it; and a tick
-- that does not resend comes less than the timeout after one of these.
pub run_loop-IsPaced :
    (timeout now : ℕ) (rs : List Readings)
    → InTime now rs
    → IsPaced timeout (now ∷ []) (run_loop (new (some timeout) now) rs)
unfolding new IsLast
run_loop-IsPaced timeout now rs m =
    run_loop-IsPaced_from timeout now (now ∷ []) rs (ground arith, (omega arith, tt)) m
