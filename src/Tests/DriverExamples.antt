-- ===== src/Tests/DriverExamples.antt =====
-- The theorems on the driver's clocks, buffer and peers, at concrete inputs.
use rbft.Base.{
  ℕ, ◌≡◌, refl, List, [], ◌∷◌, none, some, true, false, ◌==◌, arith, IsDistinct, not, map, is_empty,
  contains,
}
use rbft.State.{next_proposer_for_current_round}
use rbft.Driver.Dialing.{peers_to_dial, dial-one_side}
use rbft.Driver.Express.{
  Pending, fresh, proposer_peer, express_delivery, IsDelivery, express_delivery-IsDelivery,
}
use rbft.Tests.{test_env, members, start}
use rbft.Driver.Peers.{
  Link, Connections, Peers, Event, established, disconnected, get, handle_event, handle_events,
}
use rbft.Driver.Peers.Register.{
  registers, handle_events-registers, handle_events-keeps_live, handle_event-one_task,
}
use rbft.Driver.Resend.{Readings, InTime, IsPaced, run_loop, run_loop-IsPaced}
use rbft.Driver.Resend
use rbft.Driver.Reconnect.{
  attempt_peer_reconnection, IsRun, backoffs, attempt_peer_reconnection-IsRun,
}

-- Peer 7 is connected at address 1, and connects again at address 2 before the first connection ends.
abbrev one_peer : Peers
one_peer = record { connections = (7, record { addr = 1; sender = 10 }) ∷ []; active = [] }

abbrev reconnects : List Event
reconnects = established 7 2 11 ∷ disconnected 7 1 ∷ established 8 3 12 ∷ []

handle_events-registers_example :
    get (handle_events 5 one_peer reconnects).connections 7
    ≡ registers 7 (get one_peer.connections 7) reconnects
handle_events-registers_example = handle_events-registers 5 one_peer reconnects 7

handle_events-keeps_live_example :
    get (handle_events 5 one_peer reconnects).connections 7
    ≡ some (record { addr = 2; sender = 11 })
handle_events-keeps_live_example =
    handle_events-keeps_live 5 one_peer 7 2 11 (disconnected 7 1 ∷ established 8 3 12 ∷ [])
      (refl, (refl, tt))

handle_event-one_task_example :
    IsDistinct (handle_event 5 one_peer (disconnected 7 1)).0.active
    × ((p addr : ℕ)
        → (handle_event 5 one_peer (disconnected 7 1)).1 ≡ some (p, addr)
        → (disconnected 7 1 ≡ disconnected p addr)
          × (contains one_peer.active p ≡ false)
          × (contains (handle_event 5 one_peer (disconnected 7 1)).0.active p ≡ true)
          × (get (handle_event 5 one_peer (disconnected 7 1)).0.connections p ≡ none))
handle_event-one_task_example = handle_event-one_task 5 one_peer (disconnected 7 1) tt

-- The peer is found connected at the second question of the second attempt.
attempt_peer_reconnection-IsRun_example :
    let r =
      attempt_peer_reconnection
        (λ q. q == 3)
        (record { max_attempts = 5; base_delay_ms = 100; max_delay_ms = 1000 })
        1
        2 in
    IsRun (λ q. q == 3) r.0 (backoffs 100 1000 0 5) r.1 5 0
attempt_peer_reconnection-IsRun_example =
    attempt_peer_reconnection-IsRun (λ q. q == 3)
      (record { max_attempts = 5; base_delay_ms = 100; max_delay_ms = 1000 }) 1 2 refl (omega arith)
      (omega arith)

-- Nodes 11 and 13 of a list of three.
dial-one_side_example :
    not (contains (peers_to_dial [] 11 (11 ∷ 12 ∷ 13 ∷ [])) 13)
    ≡ contains (peers_to_dial (12 ∷ []) 13 (11 ∷ 12 ∷ 13 ∷ [])) 11
dial-one_side_example =
    dial-one_side [] (12 ∷ []) 11 13 (11 ∷ 12 ∷ 13 ∷ []) (refl, (refl, (refl, tt))) refl refl refl
      refl refl

abbrev one_validator : Connections
one_validator = (12, record { addr = 1; sender = 10 }) ∷ []

abbrev two_pending : List Pending
two_pending =
    record { timestamp = 5; encoded = 1 ∷ [] } ∷ record { timestamp = 9; encoded = 2 ∷ [] } ∷ []

-- The node 13, where 12 is the next proposer's.
express_delivery-IsDelivery_example :
    let d =
      express_delivery
        (λ sender. true)
        one_validator
        members
        (11 ∷ 12 ∷ 13 ∷ 14 ∷ [])
        13
        start
        5
        two_pending in
    IsDelivery 13 5 two_pending d
    × ((peer : ℕ) (link : Link)
        → proposer_peer members (11 ∷ 12 ∷ 13 ∷ 14 ∷ []) (next_proposer_for_current_round start)
          ≡ some peer
        → (peer == 13) ≡ false
        → get one_validator peer ≡ some link
        → true ≡ true
        → is_empty (fresh 5 two_pending) ≡ false
        → d.0 ≡ some (peer, map (λ t. t.encoded) (fresh 5 two_pending)))
express_delivery-IsDelivery_example =
    express_delivery-IsDelivery (λ sender. true) one_validator members (11 ∷ 12 ∷ 13 ∷ 14 ∷ []) 13
      start 5 two_pending

-- The node resends at 1000, commits at 1500, and resends at 2600.
abbrev four_readings : List Readings
four_readings =
    record { committed_at = none; checked_at = 500; resent_at = 500 }
    ∷ record { committed_at = none; checked_at = 1000; resent_at = 1010 }
    ∷ record { committed_at = some 1500; checked_at = 1510; resent_at = 1510 }
    ∷ record { committed_at = none; checked_at = 2600; resent_at = 2605 }
    ∷ []

four_readings-InTime : InTime 0 four_readings
four_readings-InTime = (
  omega arith,
  omega arith,
  omega arith,
  (
    omega arith,
    omega arith,
    omega arith,
    (omega arith, omega arith, omega arith, (omega arith, omega arith, omega arith, tt)),
  ),
)

run_loop-IsPaced_example : IsPaced 1000 (0 ∷ []) (run_loop (Resend.new (some 1000) 0) four_readings)
run_loop-IsPaced_example = run_loop-IsPaced 1000 0 four_readings four_readings-InTime
