-- ===== src/Logjam/Wire.antt =====
-- `WireTracker` of crates/rbft-utils/src/logjam.rs: the traces of single sends and receipts. What a dump
-- and the summary print is left out.
pub mod Counts
pub mod FirstSend
use rbft.Base.{
  ℕ, ◌+◌, ◌-◌, ◌/◌, List, [], ◌∷◌, ◌++◌, Option, none, some, Bool, ◌&&◌, not, ◌==◌, ltb,
  if◌then◌else◌, any, keep, length, contains, is_some, is_empty, u64,
}
use rbft.Logjam.{MessageKey, same_key, find_entry, put_entry, same_name}
use rbft.Logjam.Histogram.{is_dump_due}

-- Names with their earliest times.
pub record WireDelivery : Type 0 where
  pub senders : List (ℕ × ℕ)
  pub receivers : List (ℕ × ℕ)
  pub dup_receivers : List ℕ
  pub first_send : Option ℕ

pub record WireTracker : Type 0 where
  pub messages : List (MessageKey × WireDelivery)
  pub known_nodes : List ℕ
  pub send_count : ℕ
  pub recv_count : ℕ
  pub dup_count : ℕ
  pub relay_count : ℕ
  pub relay_fail_count : ℕ
  pub drain_event_count : ℕ
  pub drain_msg_count : ℕ
  pub wire_latencies : List ℕ
  pub lifetime_sends : ℕ
  pub lifetime_recvs : ℕ
  pub lifetime_dups : ℕ
  pub lifetime_relays : ℕ
  pub lifetime_relay_fails : ℕ
  pub lifetime_drain_events : ℕ
  pub lifetime_drain_msgs : ℕ
  pub lifetime_latency_count : ℕ
  pub lifetime_latency_sum : ℕ
  pub lifetime_latency_max : ℕ
  pub last_dump : ℕ

-- Keys, with the peers that the text shows.
pub data TraceEvent : Type 0 where
  send : MessageKey → ℕ → TraceEvent
  recv : MessageKey → ℕ → TraceEvent
  recv_dup : MessageKey → ℕ → TraceEvent
  drain : ℕ → ℕ → ℕ → TraceEvent
  relay : MessageKey → ℕ → ℕ → ℕ → TraceEvent

abbrev pub new_delivery : WireDelivery
new_delivery = record { senders = []; receivers = []; dup_receivers = []; first_send = none }

abbrev pub new_tracker : ℕ → WireTracker
new_tracker now = record {
  messages = [];
  known_nodes = [];
  send_count = 0;
  recv_count = 0;
  dup_count = 0;
  relay_count = 0;
  relay_fail_count = 0;
  drain_event_count = 0;
  drain_msg_count = 0;
  wire_latencies = [];
  lifetime_sends = 0;
  lifetime_recvs = 0;
  lifetime_dups = 0;
  lifetime_relays = 0;
  lifetime_relay_fails = 0;
  lifetime_drain_events = 0;
  lifetime_drain_msgs = 0;
  lifetime_latency_count = 0;
  lifetime_latency_sum = 0;
  lifetime_latency_max = 0;
  last_dump = now;
}

-- Inserts a name into a hash set.
abbrev pub with_name : ℕ → List ℕ → List ℕ
with_name name set = if contains set name then set else name ∷ set

abbrev pub note_node : WireTracker → ℕ → WireTracker
note_node t node = record t { known_nodes = with_name node t.known_nodes }

abbrev pub delivery_or_new : Option WireDelivery → WireDelivery
delivery_or_new none = new_delivery
delivery_or_new (some d) = d

-- `entry(key).or_insert_with(WireDelivery::new)`.
abbrev pub delivery_of : WireTracker → MessageKey → WireDelivery
delivery_of t key = delivery_or_new (find_entry same_key t.messages key)

-- `entry(node).or_insert(timestamp)`.
abbrev pub or_insert : List (ℕ × ℕ) → ℕ → ℕ → List (ℕ × ℕ)
or_insert m node timestamp =
    if is_some (find_entry same_name m node) then m else put_entry same_name m node timestamp

abbrev pub earlier : Option ℕ → ℕ → Option ℕ
earlier none timestamp = some timestamp
earlier (some first) timestamp = if ltb timestamp first then some timestamp else some first

unfoldable pub record_send : WireTracker → MessageKey → ℕ → ℕ → WireTracker
record_send t key node timestamp =
    let d = delivery_of t key in
    record t {
      send_count = u64 (t.send_count + 1);
      lifetime_sends = u64 (t.lifetime_sends + 1);
      messages = put_entry same_key t.messages key (record d {
        senders = or_insert d.senders node timestamp;
        first_send = earlier d.first_send timestamp;
      });
    }

-- Whole milliseconds from the first send, none below 0.
abbrev pub latency_from : ℕ → ℕ → ℕ
latency_from first timestamp = (timestamp - first) / 1000000

abbrev pub with_latency : WireTracker → Option ℕ → ℕ → WireTracker × Option ℕ
with_latency t none timestamp = (t, none)
with_latency t (some first) timestamp =
    let latency_ms = latency_from first timestamp in
    (
      record t {
        wire_latencies = t.wire_latencies ++ (latency_ms ∷ []);
        lifetime_latency_count = u64 (t.lifetime_latency_count + 1);
        lifetime_latency_sum = u64 (t.lifetime_latency_sum + latency_ms);
        lifetime_latency_max =
            if ltb t.lifetime_latency_max latency_ms then latency_ms else t.lifetime_latency_max;
      },
      some latency_ms,
    )

unfoldable pub record_recv : WireTracker → MessageKey → ℕ → ℕ → WireTracker × Option ℕ
record_recv t key node timestamp =
    let d = delivery_of t key in
    with_latency
      (record t {
        recv_count = u64 (t.recv_count + 1);
        lifetime_recvs = u64 (t.lifetime_recvs + 1);
        messages =
            put_entry same_key t.messages key
              (record d { receivers = or_insert d.receivers node timestamp });
      })
      d.first_send timestamp

unfoldable pub record_dup : WireTracker → MessageKey → ℕ → WireTracker
record_dup t key node =
    let d = delivery_of t key in
    record t {
      dup_count = u64 (t.dup_count + 1);
      lifetime_dups = u64 (t.lifetime_dups + 1);
      messages =
          put_entry same_key t.messages key
            (record d { dup_receivers = with_name node d.dup_receivers });
    }

abbrev pub record_relay : WireTracker → ℕ → ℕ → WireTracker
record_relay t to_peers failed = record t {
  relay_count = u64 (t.relay_count + 1);
  lifetime_relays = u64 (t.lifetime_relays + 1);
  relay_fail_count = u64 (t.relay_fail_count + failed);
  lifetime_relay_fails = u64 (t.lifetime_relay_fails + failed);
}

abbrev pub record_drain : WireTracker → ℕ → WireTracker
record_drain t count = record t {
  drain_event_count = u64 (t.drain_event_count + 1);
  lifetime_drain_events = u64 (t.lifetime_drain_events + 1);
  drain_msg_count = u64 (t.drain_msg_count + count);
  lifetime_drain_msgs = u64 (t.lifetime_drain_msgs + count);
}

unfoldable pub record_trace_event : WireTracker → TraceEvent → ℕ → ℕ → WireTracker
record_trace_event t (send key to_peer) node timestamp = record_send t key node timestamp
record_trace_event t (recv key from_peer) node timestamp = (record_recv t key node timestamp).0
record_trace_event t (recv_dup key from_peer) node timestamp = record_dup t key node
record_trace_event t (drain count h_range triggered_by) node timestamp = record_drain t count
record_trace_event t (relay key from_peer to_peers failed) node timestamp =
    record_relay t to_peers failed

abbrev pub should_dump : WireTracker → ℕ → Bool
should_dump t now = is_dump_due t.last_dump now

unfoldable pub dump_and_reset : WireTracker → ℕ → WireTracker
dump_and_reset t now = record t {
  send_count = 0;
  recv_count = 0;
  dup_count = 0;
  relay_count = 0;
  relay_fail_count = 0;
  drain_event_count = 0;
  drain_msg_count = 0;
  wire_latencies = [];
  last_dump = now;
}

-- The messages that were sent, and that some known node has neither sent nor received.
unfoldable pub count_incomplete_deliveries : WireTracker → ℕ
count_incomplete_deliveries t = length (
    keep
      (λ e.
        not (is_empty e.1.senders)
        && any
            (λ n.
              not (is_some (find_entry same_name e.1.senders n))
              && not (is_some (find_entry same_name e.1.receivers n)))
            t.known_nodes)
      t.messages)

-- A trace line: its node becomes known, its event is recorded, and a dump follows if it is due.
unfoldable pub process_trace : WireTracker → TraceEvent → ℕ → ℕ → WireTracker
process_trace t event node timestamp =
    let u = record_trace_event (note_node t node) event node timestamp in
    if should_dump u timestamp then dump_and_reset u timestamp else u

-- Trace lines, each with its node and time. Other lines, which only make their node known and may let a
-- dump follow, are left out.
unfoldable pub process_traces : WireTracker → List (TraceEvent × ℕ × ℕ) → WireTracker
process_traces t [] = t
process_traces t ((event, node, timestamp) ∷ lines) =
    process_traces (process_trace t event node timestamp) lines
