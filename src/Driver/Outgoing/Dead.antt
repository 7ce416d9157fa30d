-- ===== src/Driver/Outgoing/Dead.antt =====
-- Which connections the sending leaves, against the list of its attempts; and what becomes of a peer
-- that it has taken off the map.
use rbft.Base.{
  ℕ, ◌≡◌, refl, ◌∙◌, List, [], ◌∷◌, ◌++◌, none, Bool, true, ◌&&◌, ◌||◌, not, ◌==◌, if◌then◌else◌,
  contains, any, arith, Bool-cases, inl, inr,
}
use rbft.Types.{QbftMessageWithRecipient}
use rbft.Codec.Messages.{MessageKind, message}
use rbft.Driver.Peers.{Link, Connections, get, remove, Peers, disconnected, handle_event}
use rbft.Driver.Peers.Register.{get-remove}
use rbft.Driver.DebugBuffer.{Entry}
use rbft.Driver.Outgoing.{
  Channels, Sending, mark_dead, send_one, send_to_each, send_each, remove_each, send_outgoing,
}

module _ ⦃channels : Channels⦄ where
  -- What `try_send` answers, in the order of the attempts: to each peer for each message.
  unfoldable pub attempts_at :
      channels.State → MessageKind → Connections → List (ℕ × Bool) × channels.State
  attempts_at state m [] = ([], state)
  attempts_at state m ((p, link) ∷ connections) =
      let (next, sent) = channels.try_send state link.sender m in
      let (rest, last) = attempts_at next m connections in ((p, sent) ∷ rest, last)

  unfoldable pub attempts :
      channels.State → Connections → List QbftMessageWithRecipient → List (ℕ × Bool)
  unfolding attempts_at
  attempts state connections [] = []
  attempts state connections (m ∷ ms) =
      let (now, next) = attempts_at state (message m.message) connections in
      now ++ attempts next connections ms

  -- Some attempt to send to the peer failed.
  abbrev pub has_failed : ℕ → List (ℕ × Bool) → Bool
  has_failed p = any λ a. a.0 == p && not a.1

  any-append :
      (p : ℕ) (xs ys : List (ℕ × Bool))
      → has_failed p (xs ++ ys) ≡ (has_failed p xs || has_failed p ys)
  any-append p [] ys = refl
  any-append p (x ∷ xs) ys = ground (arith, any-append p xs ys)

  contains-append_one :
      (ps : List ℕ) (q p : ℕ) → contains (ps ++ (q ∷ [])) p ≡ (contains ps p || q == p)
  contains-append_one [] q p = ground arith
  contains-append_one (x ∷ ps) q p = ground (arith, contains-append_one ps q p)

  contains-same : (ps : List ℕ) (q p : ℕ) → q == p ≡ true → contains ps q ≡ contains ps p
  contains-same [] q p e = refl
  contains-same (x ∷ ps) q p e = ground (arith, contains-same ps q p e)

  contains-mark_dead :
      (ps : List ℕ) (q p : ℕ) → contains (mark_dead q ps) p ≡ (contains ps p || q == p)
  contains-mark_dead ps q p = elim (Bool-cases (contains ps q)) [
    | inl e ↦ rw e (elim (Bool-cases (q == p)) [
      | inl same ↦ ground (arith, contains-same ps q p same)
      | inr other ↦ ground arith
    ])
    | inr e ↦ rw e (contains-append_one ps q p)
  ]

  send_one-state :
      (m : MessageKind) (p : ℕ) (link : Link) (s : Sending)
      → (send_one m p link s).state ≡ (channels.try_send s.state link.sender m).0
  unfolding send_one
  send_one-state m p link s = elim (Bool-cases (channels.try_send s.state link.sender m).1) [
    | inl e ↦ rw e refl
    | inr e ↦ rw e refl
  ]

  send_one-dead :
      (m : MessageKind) (p : ℕ) (link : Link) (s : Sending) (q : ℕ)
      → contains (send_one m p link s).dead_peers q
        ≡ (contains s.dead_peers q || p == q && not (channels.try_send s.state link.sender m).1)
  unfolding send_one
  send_one-dead m p link s q = elim (Bool-cases (channels.try_send s.state link.sender m).1) [
    | inl e ↦ rw e (ground arith)
    | inr e ↦ rw e (contains-mark_dead s.dead_peers p q ∙ ground arith)
  ]

  send_to_each-state :
      (m : MessageKind) (connections : Connections) (s : Sending)
      → (send_to_each m connections s).state ≡ (attempts_at s.state m connections).1
  unfolding send_to_each attempts_at
  send_to_each-state m [] s = refl
  send_to_each-state m ((p, link) ∷ connections) s =
      rw (send_to_each-state m connections (send_one m p link s), send_one-state m p link s) refl

  send_to_each-dead :
      (m : MessageKind) (connections : Connections) (s : Sending) (q : ℕ)
      → contains (send_to_each m connections s).dead_peers q
        ≡ (contains s.dead_peers q || has_failed q (attempts_at s.state m connections).0)
  unfolding send_to_each attempts_at
  send_to_each-dead m [] s q = ground arith
  send_to_each-dead m ((p, link) ∷ connections) s q =
      rw
        (
          send_to_each-dead m connections (send_one m p link s) q,
          send_one-dead m p link s q,
          send_one-state m p link s,
        )
        (ground arith)

  send_each-dead :
      (connections : Connections) (ms : List QbftMessageWithRecipient) (s : Sending) (q : ℕ)
      → contains (send_each connections ms s).dead_peers q
        ≡ (contains s.dead_peers q || has_failed q (attempts s.state connections ms))
  unfolding send_each attempts
  send_each-dead connections [] s q = ground arith
  send_each-dead connections (m ∷ ms) s q =
      let first = (attempts_at s.state (message m.message) connections).0 in
      let later = attempts (attempts_at s.state (message m.message) connections).1 connections ms in
      rw
        (
          send_each-dead connections ms (send_to_each (message m.message) connections s) q,
          send_to_each-dead (message m.message) connections s q,
          send_to_each-state (message m.message) connections s,
        )
        (ground (arith, any-append q first later))

  get-remove_each :
      (ps : List ℕ) (connections : Connections) (q : ℕ)
      → get (remove_each ps connections) q ≡ (if contains ps q then none else get connections q)
  unfolding remove_each
  get-remove_each [] connections q = ground arith
  get-remove_each (p ∷ ps) connections q =
      ground (arith, get-remove_each ps (remove connections p) q, get-remove connections p q)

  -- The sending at the end of `advance` takes a peer off the connection map exactly if some attempt to
  -- send to it failed; any other peer keeps its link. The attempts are to each peer in order, for each
  -- message.
  pub send_outgoing-get :
      (state : channels.State) (buffer : List Entry) (connections : Connections)
      (outgoing : List QbftMessageWithRecipient) (p : ℕ)
      → get (send_outgoing state buffer connections outgoing).0 p
        ≡ (if has_failed p (attempts state connections outgoing) then none else get connections p)
  unfolding send_outgoing
  send_outgoing-get state buffer connections outgoing p =
      let s : Sending = record { state = state; debug_buffer = buffer; dead_peers = [] } in
      get-remove_each (send_each connections outgoing s).dead_peers connections p
      ∙ rw (send_each-dead connections outgoing s p) (ground arith)

  -- A peer that `advance` has taken off the map is not reconnected to when its connection closes: the
  -- event finds no stored address, and neither changes the map nor starts a task.
  pub send_outgoing-forgets :
      (state : channels.State) (buffer : List Entry) (s : Peers)
      (outgoing : List QbftMessageWithRecipient) (max_attempts p addr : ℕ)
      → has_failed p (attempts state s.connections outgoing) ≡ true
      → let t : Peers = record s {
        connections = (send_outgoing state buffer s.connections outgoing).0;
      } in
        handle_event max_attempts t (disconnected p addr) ≡ (t, none)
  unfolding handle_event
  send_outgoing-forgets state buffer s outgoing max_attempts p addr failed =
      rw (send_outgoing-get state buffer s.connections outgoing p, failed) refl
