-- ===== src/Driver/Reconnect.antt =====
-- `attempt_peer_reconnection` of crates/rbft-node/src/rbft_consensus.rs. Whether the peer is connected is
-- asked twice in each attempt; the answers are a function of the number of questions before. Each
-- attempt that asks the network to connect is listed with the delay slept before it.
use rbft.Base.{
  ℕ, zero, suc, ◌+◌, ◌*◌, ◌^◌, ◌≤◌, ◌<◌, ◌≡◌, refl, sym, ap, ◌∙◌, take, List, [], ◌∷◌, Bool, false,
  ◌==◌, if◌then◌else◌, min, u64, length, arith, Bool-cases, inl, inr,
}
use native.Mathlib.Nat.{pow-suc, mul_assoc}
use native.Mathlib.Decide.{dec_le}

pub record ReconnectConfig : Type 0 where
  pub max_attempts : ℕ
  pub base_delay_ms : ℕ
  pub max_delay_ms : ℕ

pub data Outcome : Type 0 where
  is_self : Outcome
  reconnected : Outcome
  failed : Outcome

-- The while loop: attempts left, the next delay, and the questions asked so far. `current * 2` is taken
-- on u64.
unfoldable pub attempt_loop : (ℕ → Bool) → ℕ → ℕ → ℕ → ℕ → List ℕ × Outcome
attempt_loop connected max_delay zero delay asked = ([], failed)
attempt_loop connected max_delay (suc left) delay asked =
    let (delays, outcome) =
      attempt_loop connected max_delay left (min (u64 (delay * 2)) max_delay) (asked + 2) in
    if connected asked
    then ([], reconnected)
    else if connected (asked + 1)
    then (delay ∷ [], reconnected)
    else (delay ∷ delays, outcome)

unfoldable pub attempt_peer_reconnection : (ℕ → Bool) → ReconnectConfig → ℕ → ℕ → List ℕ × Outcome
attempt_peer_reconnection connected c local_peer peer =
    if peer == local_peer
    then ([], is_self)
    else attempt_loop connected c.max_delay_ms c.max_attempts c.base_delay_ms 0

-- The delay before the attempt of this index, counted from 0.
unfoldable pub backoff : ℕ → ℕ → ℕ → ℕ
backoff base max_delay zero = base
backoff base max_delay (suc k) = min (base * 2 ^ suc k) max_delay

-- The delays before the first n attempts.
pub backoffs : ℕ → ℕ → ℕ → ℕ → List ℕ
backoffs base max_delay k zero = []
backoffs base max_delay k (suc n) = backoff base max_delay k ∷ backoffs base max_delay (suc k) n

-- The next delay is the next of the closed form.
backoff-next :
    (base max_delay k : ℕ)
    → base < 2 ^ 63
    → max_delay < 2 ^ 63
    → min (u64 (backoff base max_delay k * 2)) max_delay ≡ backoff base max_delay (suc k)
unfolding backoff
backoff-next base max_delay zero b m =
    let whole : u64 (base * 2) ≡ base * 2 = omega arith in rw whole refl
backoff-next base max_delay (suc k) b m =
    let x = base * 2 ^ suc k in
    let next : base * 2 ^ suc (suc k) ≡ x * 2 =
      rw (pow-suc 2 (suc k)) (sym (mul_assoc base (2 ^ suc k) 2)) in
    rw next (omega arith)

-- What the loop has done: the delays are those of the closed form, doubled each time up to the bound, as
-- many as were needed; a failure means that all attempts were made, and each answer was no.
pub record IsRun (connected : ℕ → Bool) (delays whole : List ℕ) (outcome : Outcome)
    (attempts asked : ℕ) : Type 0 where
  pub follows : delays ≡ take (length delays) whole
  pub bounded : length delays ≤ attempts
  pub exhausted : outcome ≡ failed → length delays ≡ attempts
  pub never :
      outcome ≡ failed → (q : ℕ) → asked ≤ q → q < asked + 2 * attempts → connected q ≡ false

-- An answer among two, or later.
answers :
    (connected : ℕ → Bool) (asked q : ℕ)
    → connected asked ≡ false
    → connected (asked + 1) ≡ false
    → (asked + 2 ≤ q → connected q ≡ false)
    → asked ≤ q
    → connected q ≡ false
answers connected asked q first second later l = elim (dec_le (asked + 2) q) [
  | yes h ↦ later h
  | no h ↦ elim (dec_le (asked + 1) q) [
    | yes k ↦ let same : q ≡ asked + 1 = omega arith in ap connected same ∙ second
    | no k ↦ let same : q ≡ asked = omega arith in ap connected same ∙ first
  ]
]

-- One more attempt before a run.
attempt-IsRun :
    (connected : ℕ → Bool) (d : ℕ) (delays whole : List ℕ) (outcome : Outcome) (n asked : ℕ)
    → IsRun connected delays whole outcome n (asked + 2)
    → let r : List ℕ × Outcome =
        if connected asked
        then ([], reconnected)
        else if connected (asked + 1)
        then (d ∷ [], reconnected)
        else (d ∷ delays, outcome) in
      IsRun connected r.0 (d ∷ whole) r.1 (suc n) asked
attempt-IsRun connected d delays whole outcome n asked v = elim (Bool-cases (connected asked)) [
  | inl a ↦
      rw a (record { follows = refl; bounded = omega arith; exhausted = λ e. cc; never = λ e. cc })
  | inr a ↦ elim (Bool-cases (connected (asked + 1))) [
    | inl c ↦
        rw (a, c)
          (record { follows = refl; bounded = omega arith; exhausted = λ e. cc; never = λ e. cc })
    | inr c ↦
        rw (a, c)
          (record {
            follows = ap (◌∷◌ d) v.follows;
            bounded = omega (arith, v.bounded);
            exhausted = λ e. ap suc (v.exhausted e);
            never = λ e q l h. answers connected asked q a c (λ k. v.never e q k (omega arith)) l;
          })
  ]
]

attempt_loop-IsRun :
    (connected : ℕ → Bool) (base max_delay k attempts asked : ℕ)
    → base < 2 ^ 63
    → max_delay < 2 ^ 63
    → let r = attempt_loop connected max_delay attempts (backoff base max_delay k) asked in
      IsRun connected r.0 (backoffs base max_delay k attempts) r.1 attempts asked
unfolding attempt_loop backoffs
attempt_loop-IsRun connected base max_delay k zero asked b m = record {
  follows = refl;
  bounded = omega arith;
  exhausted = λ e. refl;
  never = λ e q l h. absurd (omega arith);
}
attempt_loop-IsRun connected base max_delay k (suc n) asked b m =
    rw (backoff-next base max_delay k b m) (
      attempt-IsRun connected (backoff base max_delay k) _ _ _ n asked
        (attempt_loop-IsRun connected base max_delay (suc k) n (asked + 2) b m))

-- A reconnection to another peer, its delays below 2^63 ms, ends after at most the configured attempts.
-- The delays are the base delay, then twice as much each time, but no more than the largest one; it
-- fails only if all attempts were made and the peer was connected at none of the 2 questions of each.
pub attempt_peer_reconnection-IsRun :
    (connected : ℕ → Bool) (c : ReconnectConfig) (local_peer peer : ℕ)
    → (peer == local_peer) ≡ false
    → c.base_delay_ms < 2 ^ 63
    → c.max_delay_ms < 2 ^ 63
    → let r = attempt_peer_reconnection connected c local_peer peer in
      IsRun connected r.0
        (backoffs c.base_delay_ms c.max_delay_ms 0 c.max_attempts)
        r.1
        c.max_attempts
        0
unfolding attempt_peer_reconnection backoff
attempt_peer_reconnection-IsRun connected c local_peer peer other b m =
    rw other (attempt_loop-IsRun connected c.base_delay_ms c.max_delay_ms 0 c.max_attempts 0 b m)
