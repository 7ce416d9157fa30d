-- ===== src/Logjam/Wire/Counts.antt =====
-- The lifetime counters of the trace, against the lines.
use rbft.Base.{ℕ, ◌+◌, ◌%◌, ◌^◌, ◌≡◌, List, [], ◌∷◌, Option, none, some, arith, if-holds}
use rbft.Logjam.Wire.{
  WireTracker, TraceEvent, send, recv, recv_dup, drain, relay, note_node, delivery_of, with_latency,
  record_send, record_recv, record_dup, record_trace_event, should_dump, dump_and_reset,
  process_trace, process_traces,
}

abbrev sends_of : TraceEvent → ℕ
sends_of (send k p) = 1
sends_of _ = 0

abbrev recvs_of : TraceEvent → ℕ
recvs_of (recv k p) = 1
recvs_of _ = 0

abbrev dups_of : TraceEvent → ℕ
dups_of (recv_dup k p) = 1
dups_of _ = 0

abbrev failures_of : TraceEvent → ℕ
failures_of (relay k p to_peers failed) = failed
failures_of _ = 0

abbrev drained_of : TraceEvent → ℕ
drained_of (drain count h_range by) = count
drained_of _ = 0

abbrev pub total_of : (TraceEvent → ℕ) → List (TraceEvent × ℕ × ℕ) → ℕ
total_of f [] = 0
total_of f ((event, node, timestamp) ∷ lines) = f event + total_of f lines

-- The counters of u are those of t with these numbers added, as 64 bits.
pub record Adds (t u : WireTracker) (s r d x n : ℕ) : Type 0 where
  pub sends : u.lifetime_sends % 2 ^ 64 ≡ (t.lifetime_sends + s) % 2 ^ 64
  pub recvs : u.lifetime_recvs % 2 ^ 64 ≡ (t.lifetime_recvs + r) % 2 ^ 64
  pub dups : u.lifetime_dups % 2 ^ 64 ≡ (t.lifetime_dups + d) % 2 ^ 64
  pub failures : u.lifetime_relay_fails % 2 ^ 64 ≡ (t.lifetime_relay_fails + x) % 2 ^ 64
  pub drained : u.lifetime_drain_msgs % 2 ^ 64 ≡ (t.lifetime_drain_msgs + n) % 2 ^ 64

abbrev AddsEvent : WireTracker → TraceEvent → WireTracker → Type 0
AddsEvent t e u = Adds t u (sends_of e) (recvs_of e) (dups_of e) (failures_of e) (drained_of e)

with_latency-Adds :
    (t u : WireTracker) (o : Option ℕ) (timestamp a b c d e : ℕ)
    → Adds t u a b c d e
    → Adds t (with_latency u o timestamp).0 a b c d e
with_latency-Adds t u none timestamp a b c d e h = h
with_latency-Adds t u (some first) timestamp a b c d e h = ground (arith, h)

record_trace_event-Adds :
    (t : WireTracker) (event : TraceEvent) (node timestamp : ℕ)
    → AddsEvent t event (record_trace_event t event node timestamp)
unfolding record_trace_event record_send record_recv record_dup
record_trace_event-Adds t (send k p) node timestamp = ground arith
record_trace_event-Adds t (recv k p) node timestamp =
    with_latency-Adds t _ (delivery_of t k).first_send timestamp 0 1 0 0 0 (ground arith)
record_trace_event-Adds t (recv_dup k p) node timestamp = ground arith
record_trace_event-Adds t (drain count h_range by) node timestamp = ground arith
record_trace_event-Adds t (relay k p to_peers failed) node timestamp = ground arith

process_trace-Adds :
    (t : WireTracker) (event : TraceEvent) (node timestamp : ℕ)
    → AddsEvent t event (process_trace t event node timestamp)
unfolding process_trace dump_and_reset
process_trace-Adds t event node timestamp =
    let u = record_trace_event (note_node t node) event node timestamp in
    let h = record_trace_event-Adds (note_node t node) event node timestamp in
    let P = λ (x : WireTracker). AddsEvent t event x in
    if-holds P (should_dump u timestamp) _ _ (ground (arith, h)) (ground (arith, h))

-- The dumps between the trace lines lose nothing of the lifetime counters: over any lines, they grow by
-- the number of the sends, of the receipts and of the duplicates, and by the sums of the failed relays
-- and of the drained messages, as 64 bits.
pub process_traces-Adds :
    (t : WireTracker) (lines : List (TraceEvent × ℕ × ℕ))
    → Adds t
        (process_traces t lines)
        (total_of sends_of lines)
        (total_of recvs_of lines)
        (total_of dups_of lines)
        (total_of failures_of lines)
        (total_of drained_of lines)
unfolding process_traces
process_traces-Adds t [] = ground arith
process_traces-Adds t ((event, node, timestamp) ∷ lines) =
    let h = process_trace-Adds t event node timestamp in
    let g = process_traces-Adds (process_trace t event node timestamp) lines in
    record {
      sends = omega (arith, h.sends, g.sends);
      recvs = omega (arith, h.recvs, g.recvs);
      dups = omega (arith, h.dups, g.dups);
      failures = omega (arith, h.failures, g.failures);
      drained = omega (arith, h.drained, g.drained);
    }
