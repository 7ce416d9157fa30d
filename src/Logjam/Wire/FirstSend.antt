-- ===== src/Logjam/Wire/FirstSend.antt =====
-- The first send of a message, against the sends in the trace lines.
use rbft.Base.{
  ℕ, ◌≡◌, refl, sym, ◌∙◌, ap, List, [], ◌∷◌, Option, none, some, min, if◌then◌else◌, arith,
  Bool-cases, inl, inr, if-holds,
}
use rbft.Logjam.{MessageKey, same_key, find_entry, put_entry}
use rbft.Logjam.Maps.{find_entry-put_entry, same_key_sound, same_key_refl}
use rbft.Logjam.Wire.{
  WireDelivery, WireTracker, TraceEvent, send, recv, recv_dup, drain, relay, new_tracker, note_node,
  delivery_or_new, delivery_of, earlier, with_latency, record_send, record_recv, record_dup,
  record_trace_event, should_dump, dump_and_reset, process_trace, process_traces,
}

-- The earlier of two times, of which either may be missing.
abbrev earliest_of : Option ℕ → Option ℕ → Option ℕ
earliest_of none b = b
earliest_of (some a) none = some a
earliest_of (some a) (some b) = some (min a b)

-- The time of a line that sends this message.
abbrev send_time : MessageKey → TraceEvent → ℕ → Option ℕ
send_time key (send k to_peer) timestamp = if same_key k key then some timestamp else none
send_time key _ timestamp = none

-- The least time of the lines that send this message, in any order.
abbrev pub first_send_of : MessageKey → List (TraceEvent × ℕ × ℕ) → Option ℕ
first_send_of key [] = none
first_send_of key ((event, node, timestamp) ∷ lines) =
    earliest_of (send_time key event timestamp) (first_send_of key lines)

abbrev pub first_send_in : WireTracker → MessageKey → Option ℕ
first_send_in t key = (delivery_of t key).first_send

earliest_of_assoc :
    (a b c : Option ℕ) → earliest_of (earliest_of a b) c ≡ earliest_of a (earliest_of b c)
earliest_of_assoc none b c = refl
earliest_of_assoc (some a) none c = refl
earliest_of_assoc (some a) (some b) none = refl
earliest_of_assoc (some a) (some b) (some c) = ap some (omega arith)

earlier-earliest_of : (a : Option ℕ) (b : ℕ) → earlier a b ≡ earliest_of a (some b)
earlier-earliest_of none b = refl
earlier-earliest_of (some a) b = ground arith

earliest_of-none : (a : Option ℕ) → earliest_of a none ≡ a
earliest_of-none none = refl
earliest_of-none (some a) = refl

-- The first send after a delivery is replaced.
inserted :
    (messages : List (MessageKey × WireDelivery)) (k key : MessageKey) (d : WireDelivery)
    → (delivery_or_new (find_entry same_key (put_entry same_key messages k d) key)).first_send ≡ (
        if same_key k key
        then d.first_send
        else (delivery_or_new (find_entry same_key messages key)).first_send)
inserted messages k key d =
    ap (λ o. (delivery_or_new o).first_send)
      (find_entry-put_entry same_key same_key_sound same_key_refl messages k key d)
    ∙ ground arith

-- A delivery that keeps its first send changes none.
inserted-same :
    (t : WireTracker) (k key : MessageKey) (d : WireDelivery)
    → d.first_send ≡ first_send_in t k
    → (delivery_or_new (find_entry same_key (put_entry same_key t.messages k d) key)).first_send
      ≡ first_send_in t key
inserted-same t k key d e = inserted t.messages k key d ∙ elim (Bool-cases (same_key k key)) [
  | inl h ↦ rw h (e ∙ ap (first_send_in t) (same_key_sound k key h))
  | inr h ↦ rw h refl
]

with_latency-messages :
    (t : WireTracker) (o : Option ℕ) (timestamp : ℕ)
    → (with_latency t o timestamp).0.messages ≡ t.messages
with_latency-messages t none timestamp = refl
with_latency-messages t (some first) timestamp = refl

record_trace_event-first_send_in :
    (t : WireTracker) (event : TraceEvent) (node timestamp : ℕ) (key : MessageKey)
    → first_send_in (record_trace_event t event node timestamp) key
      ≡ earliest_of (first_send_in t key) (send_time key event timestamp)
unfolding record_trace_event record_send record_recv record_dup
record_trace_event-first_send_in t (send k to_peer) node timestamp key =
    inserted t.messages k key _ ∙ elim (Bool-cases (same_key k key)) [
      | inl h ↦ rw h (
          earlier-earliest_of _ timestamp
          ∙ ap (λ x. earliest_of (first_send_in t x) (some timestamp)) (same_key_sound k key h))
      | inr h ↦ rw h (sym (earliest_of-none _))
    ]
record_trace_event-first_send_in t (recv k from_peer) node timestamp key =
    ap (λ m. (delivery_or_new (find_entry same_key m key)).first_send)
      (with_latency-messages _ (delivery_of t k).first_send timestamp)
    ∙ inserted-same t k key _ refl
    ∙ sym (earliest_of-none _)
record_trace_event-first_send_in t (recv_dup k from_peer) node timestamp key =
    inserted-same t k key _ refl ∙ sym (earliest_of-none _)
record_trace_event-first_send_in t (drain count h_range by) node timestamp key =
    sym (earliest_of-none _)
record_trace_event-first_send_in t (relay k from_peer to_peers failed) node timestamp key =
    sym (earliest_of-none _)

process_trace-first_send_in :
    (t : WireTracker) (event : TraceEvent) (node timestamp : ℕ) (key : MessageKey)
    → first_send_in (process_trace t event node timestamp) key
      ≡ earliest_of (first_send_in t key) (send_time key event timestamp)
unfolding process_trace dump_and_reset
process_trace-first_send_in t event node timestamp key =
    let u = record_trace_event (note_node t node) event node timestamp in
    let e = record_trace_event-first_send_in (note_node t node) event node timestamp key in
    if-holds
      (λ (x : WireTracker).
        first_send_in x key ≡ earliest_of (first_send_in t key) (send_time key event timestamp))
      (should_dump u timestamp) _ _ e e

process_traces-first_send_in :
    (t : WireTracker) (lines : List (TraceEvent × ℕ × ℕ)) (key : MessageKey)
    → first_send_in (process_traces t lines) key
      ≡ earliest_of (first_send_in t key) (first_send_of key lines)
unfolding process_traces
process_traces-first_send_in t [] key = sym (earliest_of-none _)
process_traces-first_send_in t ((event, node, timestamp) ∷ lines) key =
    process_traces-first_send_in (process_trace t event node timestamp) lines key
    ∙ ap (λ o. earliest_of o (first_send_of key lines))
        (process_trace-first_send_in t event node timestamp key)
    ∙ earliest_of_assoc (first_send_in t key) (send_time key event timestamp)
        (first_send_of key lines)

-- Whatever the order of the trace lines, the first send that a new tracker keeps of a message, from
-- which it measures the latency of a receipt, is the least time of the lines that send it.
pub process_traces-first_send_of :
    (now : ℕ) (lines : List (TraceEvent × ℕ × ℕ)) (key : MessageKey)
    → first_send_in (process_traces (new_tracker now) lines) key ≡ first_send_of key lines
unfolding find_entry
process_traces-first_send_of now lines key =
    process_traces-first_send_in (new_tracker now) lines key
