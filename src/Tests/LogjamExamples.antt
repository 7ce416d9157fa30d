-- ===== src/Tests/LogjamExamples.antt =====
-- The theorems on the log analysis and on the sending to peers at concrete inputs.
use rbft.Base.{
  ℕ, ◌≡◌, refl, List, [], ◌∷◌, none, some, true, false, not, ◌+◌, ◌==◌, ◌>>=◌, if◌then◌else◌, arith,
  Gives,
}
use rbft.Types.{QbftMessageWithRecipient}
use rbft.Driver.Peers.{Connections, Peers, get, disconnected, handle_event}
use rbft.Driver.Outgoing.{Channels, send_outgoing}
use rbft.Driver.Outgoing.Dead.{
  attempts_at, attempts, has_failed, send_outgoing-get, send_outgoing-forgets,
}
use rbft.Logjam.{MessageKey}
use rbft.Logjam.Delivery.{LogLine, new, process_lines}
use rbft.Logjam.Network.{IsNetwork}
use rbft.Logjam.Reports.{new-process_lines-IsNetwork}
use rbft.Logjam.Wire.{TraceEvent, send, recv, new_tracker, process_traces}
use rbft.Logjam.Wire.FirstSend.{first_send_in, first_send_of, process_traces-first_send_of}
use rbft.Tests.{prepare_in, commit_by}

-- The channel 7 is full.
instance abbrev one_full : Channels
one_full = record {
  State = ℕ;
  try_send = λ n sender m. (n + 1, not (sender == 7));
  sending = λ p m. (p, 0);
  failed = λ p m. (p, 1);
}

abbrev two_peers : Connections
two_peers = (1, record { addr = 10; sender = 5 }) ∷ (2, record { addr = 20; sender = 7 }) ∷ []

abbrev two_messages : List QbftMessageWithRecipient
two_messages =
    record { message = prepare_in 0 3; recipient = 0 }
    ∷ record { message = commit_by 3; recipient = 0 }
    ∷ []

send_outgoing-get_example :
    get (send_outgoing 0 [] two_peers two_messages).0 2
    ≡ (if has_failed 2 (attempts 0 two_peers two_messages) then none else get two_peers 2)
send_outgoing-get_example = send_outgoing-get 0 [] two_peers two_messages 2

abbrev two_connected : Peers
two_connected = record { connections = two_peers; active = [] }

send_outgoing-forgets_example :
    let t : Peers = record two_connected {
      connections = (send_outgoing 0 [] two_peers two_messages).0;
    } in
    handle_event 3 t (disconnected 2 20) ≡ (t, none)
unfolding attempts attempts_at
send_outgoing-forgets_example = send_outgoing-forgets 0 [] two_connected two_messages 3 2 20 refl

abbrev prepare_key : MessageKey
prepare_key = record { height = 20; round = 0; kind = 112 }

abbrev quiet_line : LogLine
quiet_line = record {
  validator = 1;
  timestamp = some 1000000000;
  now = 0;
  is_warn = false;
  is_error = false;
  is_before_line = false;
  is_after_line = true;
  input_messages = [];
  output_messages = prepare_key ∷ [];
}

-- Node 1 sends, node 2 has not received after 20 seconds, and then has.
abbrev three_lines : List LogLine
three_lines =
    quiet_line
    ∷ record quiet_line {
      validator = 2;
      timestamp = some 21000000000;
      is_before_line = true;
      is_after_line = false;
    }
    ∷ record quiet_line {
      validator = 2;
      timestamp = none;
      now = 22000000000;
      is_before_line = true;
      input_messages = prepare_key ∷ [];
      output_messages = [];
    }
    ∷ []

new-process_lines-IsNetwork_example :
    Gives (new 1000 100 0 >>= λ s. process_lines s three_lines) IsNetwork
new-process_lines-IsNetwork_example =
    new-process_lines-IsNetwork 1000 100 0 three_lines (omega arith) (omega arith)

abbrev four_traces : List (TraceEvent × ℕ × ℕ)
four_traces =
    (send prepare_key 2, 1, 7000000000)
    ∷ (recv prepare_key 1, 2, 7020000000)
    ∷ (send prepare_key 3, 3, 6990000000)
    ∷ (recv prepare_key 3, 4, 7030000000)
    ∷ []

process_traces-first_send_of_example :
    first_send_in (process_traces (new_tracker 0) four_traces) prepare_key
    ≡ first_send_of prepare_key four_traces
process_traces-first_send_of_example = process_traces-first_send_of 0 four_traces prepare_key
