-- ===== src/Driver/Outgoing.antt =====
-- The sending to peers in crates/rbft-node/src/rbft_consensus.rs: the end of `advance`, which takes
-- the peers that it cannot send to off the connection map, and `resend_cached_messages`. The channels
-- are tokio's, a parameter; an entry of the debug buffer for a message and a peer is another.
pub mod Dead
use rbft.Base.{
  ℕ, ◌+◌, ◌-◌, List, [], ◌∷◌, ◌++◌, Option, none, some, Bool, true, false, ◌||◌, ◌==◌,
  if◌then◌else◌, contains,
}
use rbft.Types.{Bytes, QbftMessageWithRecipient}
use rbft.Chain
use rbft.State.{NodeState}
use rbft.Codec.Messages.{Payloads, MessageKind, message, decode_frame}
use rbft.Driver.Peers.{Link, Connections, remove}
use rbft.Driver.DebugBuffer.{Entry}

-- `try_send` on the sender of a peer: the channels after it, and whether the message was taken.
pub record Channels : Type 1 where
  pub State : Type 0
  pub try_send : State → ℕ → MessageKind → State × Bool
  -- What is logged for a message to a peer, and for a failed resend.
  pub sending : ℕ → MessageKind → Entry
  pub failed : ℕ → MessageKind → Entry

module _ ⦃channels : Channels⦄ where
  pub record Sending : Type 0 where
    pub state : channels.State
    pub debug_buffer : List Entry
    pub dead_peers : List ℕ

  abbrev pub mark_dead : ℕ → List ℕ → List ℕ
  mark_dead p ps = if contains ps p then ps else ps ++ (p ∷ [])

  -- A failed send dumps the buffer, and marks the peer.
  unfoldable pub send_one : MessageKind → ℕ → Link → Sending → Sending
  send_one m p link s =
      let (state, sent) = channels.try_send s.state link.sender m in
      if sent
      then record s { state = state; debug_buffer = s.debug_buffer ++ (channels.sending p m ∷ []) }
      else record s { state = state; debug_buffer = []; dead_peers = mark_dead p s.dead_peers }

  unfoldable pub send_to_each : MessageKind → Connections → Sending → Sending
  send_to_each m [] s = s
  send_to_each m ((p, link) ∷ connections) s = send_to_each m connections (send_one m p link s)

  unfoldable pub send_each : Connections → List QbftMessageWithRecipient → Sending → Sending
  send_each connections [] s = s
  send_each connections (m ∷ ms) s =
      send_each connections ms (send_to_each (message m.message) connections s)

  unfoldable pub remove_each : List ℕ → Connections → Connections
  remove_each [] connections = connections
  remove_each (p ∷ ps) connections = remove_each ps (remove connections p)

  -- `dead_peers` starts empty; the connections after it, and what the sends left.
  unfoldable pub send_outgoing :
      channels.State
      → List Entry
      → Connections
      → List QbftMessageWithRecipient
      → Connections × Sending
  send_outgoing state buffer connections outgoing =
      let s =
        send_each connections outgoing
          (record { state = state; debug_buffer = buffer; dead_peers = [] }) in
      (remove_each s.dead_peers connections, s)

  -- The cached messages of this height and of the one below it.
  abbrev pub is_target : ℕ → ℕ → Bool
  is_target current height = height == current || height == current - 1

  unfoldable pub messages_to_resend : NodeState → List (ℕ × Bytes) → List Bytes
  messages_to_resend s [] = []
  messages_to_resend s ((height, bytes) ∷ cached) =
      let rest = messages_to_resend s cached in
      if is_target (Chain.height s.blockchain) height then bytes ∷ rest else rest

  pub record Resending : Type 0 where
    pub state : channels.State
    pub debug_buffer : List Entry
    pub resend_count : ℕ
    pub error_count : ℕ

  -- A failure is logged and counted; the peer stays.
  unfoldable pub resend_one : MessageKind → ℕ → Link → Resending → Resending
  resend_one m p link s =
      let (state, sent) = channels.try_send s.state link.sender m in
      let logged = s.debug_buffer ++ (channels.sending p m ∷ []) in
      if sent
      then record s { state = state; debug_buffer = logged; resend_count = s.resend_count + 1 }
      else record s {
        state = state;
        debug_buffer = logged ++ (channels.failed p m ∷ []);
        error_count = s.error_count + 1;
      }

  unfoldable pub resend_to_each : MessageKind → Connections → Resending → Resending
  resend_to_each m [] s = s
  resend_to_each m ((p, link) ∷ connections) s =
      resend_to_each m connections (resend_one m p link s)

  abbrev pub resend_decoded : Connections → Option (MessageKind × Bytes) → Resending → Resending
  resend_decoded connections none s = s
  resend_decoded connections (some (m, rest)) s = resend_to_each m connections s

  module _ ⦃payloads : Payloads⦄ where
    unfoldable pub resend_each : Connections → List Bytes → Resending → Resending
    resend_each connections [] s = s
    resend_each connections (bytes ∷ others) s =
        resend_each connections others (resend_decoded connections (decode_frame bytes) s)

    unfoldable pub resend_cached_messages :
        channels.State → List Entry → Connections → NodeState → List (ℕ × Bytes) → Resending
    resend_cached_messages state buffer connections s cached =
        resend_each connections (messages_to_resend s cached)
          (record { state = state; debug_buffer = buffer; resend_count = 0; error_count = 0 })
