-- ===== src/Logjam/Histogram.antt =====
-- `DeliveryHistogram` of crates/rbft-utils/src/logjam.rs. What a dump prints is left out.
use rbft.Base.{
  ℕ, zero, suc, ◌+◌, ◌-◌, ◌/◌, ◌%◌, ◌^◌, ◌<◌, ◌≡◌, refl, List, [], ◌∷◌, Bool, false, ◌&&◌, ◌||◌,
  ◌==◌, leb, if◌then◌else◌, min, length, u64, arith, Exec, ok, panic, Gives, Bool-cases, inl, inr,
}

pub record DeliveryHistogram : Type 0 where
  pub buckets : List ℕ
  pub total_messages : ℕ
  pub never_received : ℕ
  pub last_dump : ℕ
  pub bucket_size_ms : ℕ
  pub max_delay_ms : ℕ
  pub warn_count : ℕ
  pub error_count : ℕ

abbrev zeros : ℕ → List ℕ
zeros zero = []
zeros (suc n) = 0 ∷ zeros n

-- Divides by the size of a bucket; a vector of u64 holds fewer than 2^60.
unfoldable pub new : ℕ → ℕ → ℕ → Exec DeliveryHistogram
new max_delay_ms bucket_size_ms now =
    if bucket_size_ms == 0 || leb (2 ^ 60) (max_delay_ms / bucket_size_ms + 1)
    then panic
    else ok (record {
      buckets = zeros (max_delay_ms / bucket_size_ms + 1);
      total_messages = 0;
      never_received = 0;
      last_dump = now;
      bucket_size_ms = bucket_size_ms;
      max_delay_ms = max_delay_ms;
      warn_count = 0;
      error_count = 0;
    })

-- `buckets[i] += 1`, which panics out of range.
abbrev count_at : List ℕ → ℕ → Exec (List ℕ)
count_at [] i = panic
count_at (n ∷ ns) zero = ok (u64 (n + 1) ∷ ns)
count_at (n ∷ ns) (suc i) = elim (count_at ns i) [ panic ↦ panic | ok ms ↦ ok (n ∷ ms) ]

abbrev counted : DeliveryHistogram → Exec (List ℕ) → Exec DeliveryHistogram
counted h panic = panic
counted h (ok buckets) =
    ok (record h { buckets = buckets; total_messages = u64 (h.total_messages + 1) })

-- `record`; `min` with the last index, which no bucket would make wrap around.
unfoldable pub record_delay : DeliveryHistogram → ℕ → Exec DeliveryHistogram
record_delay h delay_ms =
    if h.bucket_size_ms == 0
    then panic
    else counted h (
        count_at h.buckets
          (min (delay_ms / h.bucket_size_ms) (u64 (length h.buckets + (2 ^ 64 - 1)))))

abbrev pub record_warn : DeliveryHistogram → DeliveryHistogram
record_warn h = record h { warn_count = u64 (h.warn_count + 1) }

abbrev pub record_error : DeliveryHistogram → DeliveryHistogram
record_error h = record h { error_count = u64 (h.error_count + 1) }

-- At least 5 whole seconds.
abbrev pub is_dump_due : ℕ → ℕ → Bool
is_dump_due last_dump now = leb 5 ((now - last_dump) / 1000000000)

-- Also `DeliveryHistogram::should_dump`; without messages only the time is set.
unfoldable pub dump_and_reset : DeliveryHistogram → ℕ → DeliveryHistogram
dump_and_reset h now =
    if h.total_messages == 0 && h.never_received == 0
    then record h { last_dump = now }
    else record h {
      buckets = zeros (length h.buckets);
      total_messages = 0;
      never_received = 0;
      warn_count = 0;
      error_count = 0;
      last_dump = now;
    }

abbrev pub total : List ℕ → ℕ
total [] = 0
total (n ∷ ns) = n + total ns

-- There are buckets of some size, and they count each message once.
pub record IsHistogram (h : DeliveryHistogram) : Type 0 where
  pub some_bucket : 0 < length h.buckets
  pub few : length h.buckets < 2 ^ 64
  pub size : 0 < h.bucket_size_ms
  pub counts : total h.buckets % 2 ^ 64 ≡ h.total_messages

total-zeros : (n : ℕ) → (total (zeros n) ≡ 0) × (length (zeros n) ≡ n)
total-zeros zero = (refl, refl)
total-zeros (suc n) = let (t, l) = total-zeros n in (omega (arith, t), omega (arith, l))

abbrev IsCounted : List ℕ → List ℕ → Type 0
IsCounted ns ms = (length ms ≡ length ns) × (total ms % 2 ^ 64 ≡ (total ns + 1) % 2 ^ 64)

count_at-IsCounted : (ns : List ℕ) (i : ℕ) → i < length ns → Gives (count_at ns i) (IsCounted ns)
count_at-IsCounted [] i l = absurd (omega arith)
count_at-IsCounted (n ∷ ns) zero l = (_, refl, (refl, omega arith))
count_at-IsCounted (n ∷ ns) (suc i) l =
    let (ms, e, (len, t)) = count_at-IsCounted ns i (omega arith) in
    rw e (_, refl, (omega (arith, len), omega (arith, t)))

pub new-IsHistogram :
    (max_delay_ms bucket_size_ms now : ℕ)
    → 0 < bucket_size_ms
    → max_delay_ms / bucket_size_ms + 1 < 2 ^ 60
    → Gives (new max_delay_ms bucket_size_ms now) IsHistogram
unfolding new
new-IsHistogram max_delay bucket now pos few =
    let set : (bucket == 0 || leb (2 ^ 60) (max_delay / bucket + 1)) ≡ false = ground arith in
    let (t, l) = total-zeros (max_delay / bucket + 1) in
    rw set (
      _,
      refl,
      record {
        some_bucket = omega (arith, l);
        few = omega (arith, l);
        size = pos;
        counts = omega (arith, t);
      },
    )

-- A delay is always counted, in one bucket.
pub record_delay-IsHistogram :
    (h : DeliveryHistogram) (delay_ms : ℕ)
    → IsHistogram h
    → Gives (record_delay h delay_ms) (λ g.
      IsHistogram g
      × (g.total_messages ≡ u64 (h.total_messages + 1))
      × (g.never_received ≡ h.never_received))
unfolding record_delay
record_delay-IsHistogram h delay v =
    let set : (h.bucket_size_ms == 0) ≡ false = ground (arith, v.size) in
    let (ms, e, (len, t)) =
      count_at-IsCounted h.buckets
        (min (delay / h.bucket_size_ms) (u64 (length h.buckets + (2 ^ 64 - 1))))
        (omega (arith, v.some_bucket, v.few)) in
    rw (set, e)
      (
        _,
        refl,
        (
          record {
            some_bucket = omega (arith, len, v.some_bucket);
            few = omega (arith, len, v.few);
            size = v.size;
            counts = omega (arith, t, v.counts);
          },
          refl,
          refl,
        ),
      )

pub dump_and_reset-IsHistogram :
    (h : DeliveryHistogram) (now : ℕ) → IsHistogram h → IsHistogram (dump_and_reset h now)
unfolding dump_and_reset
dump_and_reset-IsHistogram h now v =
    elim (Bool-cases (h.total_messages == 0 && h.never_received == 0)) [
      | inl e ↦
          rw e
            (record { some_bucket = v.some_bucket; few = v.few; size = v.size; counts = v.counts })
      | inr e ↦
          let (t, l) = total-zeros (length h.buckets) in
          rw e (record {
            some_bucket = omega (arith, l, v.some_bucket);
            few = omega (arith, l, v.few);
            size = v.size;
            counts = omega (arith, t);
          })
    ]
