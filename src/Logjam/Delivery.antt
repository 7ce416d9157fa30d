-- ===== src/Logjam/Delivery.antt =====
-- What `process_and_print_line` of crates/rbft-utils/src/logjam.rs keeps of the summaries in the logs:
-- the messages that nodes have sent, who has received them, and which have been reported missing.
use rbft.Base.{
  ℕ, ◌+◌, ◌*◌, ◌-◌, ◌/◌, List, [], ◌∷◌, ◌++◌, Option, none, some, Bool, false, ◌&&◌, not, ◌==◌, ltb,
  if◌then◌else◌, any, length, map, is_some, u64, Exec, ok, ◌>>=◌,
}
use rbft.Logjam.{MessageKey, same_key, find_entry, put_entry, same_name, names, earliest}
use rbft.Logjam.Histogram.{
  DeliveryHistogram, record_delay, record_warn, record_error, is_dump_due, dump_and_reset,
}
use rbft.Logjam.Histogram

-- Names with times: of the senders, and of the receivers.
pub record MessageInfo : Type 0 where
  pub senders : List (ℕ × ℕ)
  pub receivers_by_node : List (ℕ × ℕ)
  pub timestamp : ℕ
  pub first_sender : ℕ

abbrev pub Tracker : Type 0
Tracker = List (MessageKey × MessageInfo)

-- The times for the separators between printed lines, and what is for traces, are left out.
pub record NetworkState : Type 0 where
  pub broadcast_tracker : Tracker
  pub histogram : DeliveryHistogram
  pub max_message_delay_ms : ℕ
  pub reported_unreceived : List (ℕ × MessageKey)

-- A line that is no wire trace, as it is parsed, with the clock for where it has no time.
pub record LogLine : Type 0 where
  pub validator : ℕ
  pub timestamp : Option ℕ
  pub now : ℕ
  pub is_warn : Bool
  pub is_error : Bool
  pub is_before_line : Bool
  pub is_after_line : Bool
  pub input_messages : List MessageKey
  pub output_messages : List MessageKey

unfoldable pub new : ℕ → ℕ → ℕ → Exec NetworkState
new max_message_delay_ms bucket_size_ms now = do
  histogram ← Histogram.new max_message_delay_ms bucket_size_ms now
  ok (record {
    broadcast_tracker = [];
    histogram = histogram;
    max_message_delay_ms = max_message_delay_ms;
    reported_unreceived = [];
  })

abbrev pub time_of : LogLine → ℕ
time_of line = elim line.timestamp [ none ↦ line.now | some t ↦ t ]

-- Whole milliseconds, none below 0.
abbrev pub delay_since : ℕ → ℕ → ℕ
delay_since sent received = (received - sent) / 1000000

abbrev pub record_since : DeliveryHistogram → ℕ → Option ℕ → Exec DeliveryHistogram
record_since h time none = ok h
record_since h time (some sent) = record_delay h (delay_since sent time)

abbrev pub received_by : ℕ → ℕ → MessageInfo → MessageInfo
received_by node time info = record info {
  receivers_by_node = put_entry same_name info.receivers_by_node node time;
}

abbrev pub receive_known :
    ℕ → ℕ → NetworkState → MessageKey → Option MessageInfo → Exec NetworkState
receive_known node time s key none = ok s
receive_known node time s key (some info) = do
  histogram ← record_since s.histogram time (earliest info.senders)
  ok (record s {
    broadcast_tracker = put_entry same_key s.broadcast_tracker key (received_by node time info);
    histogram = histogram;
  })

-- A received message that is known to be sent.
unfoldable pub receive_one : ℕ → ℕ → NetworkState → MessageKey → Exec NetworkState
receive_one node time s key =
    receive_known node time s key (find_entry same_key s.broadcast_tracker key)

unfoldable pub receive_each : ℕ → ℕ → List MessageKey → NetworkState → Exec NetworkState
receive_each node time [] s = ok s
receive_each node time (key ∷ keys) s =
    receive_one node time s key >>= λ t. receive_each node time keys t

-- `or_insert_with`.
abbrev pub info_or_new : ℕ → ℕ → Option MessageInfo → MessageInfo
info_or_new node time (some info) = info
info_or_new node time none = record {
  senders = [];
  receivers_by_node = [];
  timestamp = time;
  first_sender = node;
}

abbrev pub sent_by : ℕ → ℕ → MessageInfo → MessageInfo
sent_by node time info = record info { senders = put_entry same_name info.senders node time }

unfoldable pub send_one : ℕ → ℕ → Tracker → MessageKey → Tracker
send_one node time tracker key =
    put_entry same_key tracker key
      (sent_by node time (info_or_new node time (find_entry same_key tracker key)))

unfoldable pub send_each : ℕ → ℕ → List MessageKey → Tracker → Tracker
send_each node time [] tracker = tracker
send_each node time (key ∷ keys) tracker = send_each node time keys (send_one node time tracker key)

abbrev pub same_report : ℕ × MessageKey → ℕ × MessageKey → Bool
same_report a b = a.0 == b.0 && same_key a.1 b.1

abbrev pub is_reported : List (ℕ × MessageKey) → ℕ → MessageKey → Bool
is_reported reported node key = any (same_report (node, key)) reported

-- A line without a time does not make a message too recent.
abbrev pub too_recent : Option ℕ → ℕ → ℕ → Bool
too_recent none max_delay_ms sent = false
too_recent (some now) max_delay_ms sent = ltb (now - sent) (max_delay_ms * 1000000)

abbrev pub has_received : ℕ → MessageInfo → Bool
has_received node info = is_some (find_entry same_name info.receivers_by_node node)

abbrev pub sent_by_other : ℕ → MessageInfo → Bool
sent_by_other node info = any (λ sender. not (sender == node)) (names info.senders)

-- Is the message to be reported as missing at the node?
unfoldable pub is_unreceived :
    ℕ → Option ℕ → ℕ → List (ℕ × MessageKey) → MessageKey → MessageInfo → Bool
is_unreceived node now max_delay_ms reported key info =
    not (is_reported reported node key)
    && not (has_received node info)
    && not (too_recent now max_delay_ms info.timestamp)
    && sent_by_other node info

unfoldable pub get_unreceived_messages_for_node :
    Tracker → ℕ → Option ℕ → ℕ → List (ℕ × MessageKey) → List MessageKey
get_unreceived_messages_for_node [] node now max_delay_ms reported = []
get_unreceived_messages_for_node ((key, info) ∷ tracker) node now max_delay_ms reported =
    let rest = get_unreceived_messages_for_node tracker node now max_delay_ms reported in
    if is_unreceived node now max_delay_ms reported key info then key ∷ rest else rest

abbrev pub marked : ℕ → List MessageKey → List (ℕ × MessageKey)
marked node = map λ key. (node, key)

-- The missing messages are counted and marked, and given back.
unfoldable pub report_unreceived : LogLine → NetworkState → NetworkState × List MessageKey
report_unreceived line s =
    let missing =
      get_unreceived_messages_for_node s.broadcast_tracker line.validator line.timestamp
        s.max_message_delay_ms s.reported_unreceived in
    (
      record s {
        histogram = record (s.histogram) {
          never_received = u64 (s.histogram.never_received + length missing);
        };
        reported_unreceived = marked line.validator missing ++ s.reported_unreceived;
      },
      missing,
    )

abbrev pub levels : LogLine → DeliveryHistogram → DeliveryHistogram
levels line h = if line.is_warn then record_warn h else if line.is_error then record_error h else h

abbrev pub dumped : Option ℕ → DeliveryHistogram → DeliveryHistogram
dumped none h = h
dumped (some now) h = if is_dump_due h.last_dump now then dump_and_reset h now else h

abbrev pub before_line : LogLine → NetworkState → Exec (NetworkState × List MessageKey)
before_line line s =
    if line.is_before_line
    then (receive_each line.validator (time_of line) line.input_messages s >>= λ t.
        ok (report_unreceived line t))
    else ok (s, [])

abbrev pub after_line : LogLine → NetworkState → Exec NetworkState
after_line line s =
    if line.is_after_line
    then receive_each line.validator (time_of line) line.input_messages (record s {
      broadcast_tracker =
          send_each line.validator (time_of line) line.output_messages s.broadcast_tracker;
    })
    else ok s

-- One line, with the messages that it reports as missing.
unfoldable pub process_line : NetworkState → LogLine → Exec (NetworkState × List MessageKey)
process_line s line = do
  let counted = dumped line.timestamp (levels line s.histogram)
  reported ← before_line line (record s { histogram = counted })
  after ← after_line line reported.0
  ok (after, reported.1)

-- The loop over the sorted lines.
unfoldable pub process_lines : NetworkState → List LogLine → Exec NetworkState
process_lines s [] = ok s
process_lines s (line ∷ lines) = process_line s line >>= λ r. process_lines r.0 lines
