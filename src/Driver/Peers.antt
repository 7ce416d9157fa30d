-- ===== src/Driver/Peers.antt =====
-- The connection map of crates/rbft-node/src/rbft_consensus.rs, and the events that
-- `qbft_protocol_handler` takes: peers come and go, and messages are relayed.
pub mod Register
use rbft.Base.{
  ℕ, ◌≡◌, List, [], ◌∷◌, Option, none, some, Bool, true, false, ◌&&◌, not, ◌==◌, ltb, if◌then◌else◌,
  contains, keep, map,
}

-- A peer, a socket address and a channel are numbers.
pub record Link : Type 0 where
  pub addr : ℕ
  pub sender : ℕ

-- A hash map of peers.
abbrev pub Connections : Type 0
Connections = List (ℕ × Link)

unfoldable pub get : Connections → ℕ → Option Link
get [] p = none
get ((q, l) ∷ m) p = let rest = get m p in if q == p then some l else rest

unfoldable pub remove : Connections → ℕ → Connections
remove [] p = []
remove ((q, l) ∷ m) p = elim (q == p) [ true ↦ remove m p | false ↦ (q, l) ∷ remove m p ]

unfoldable pub insert : Connections → ℕ → Link → Connections
insert m p l = (p, l) ∷ remove m p

pub record Peers : Type 0 where
  pub connections : Connections
  -- The peers that a task is reconnecting to.
  pub active : List ℕ

pub data Event : Type 0 where
  established : ℕ → ℕ → ℕ → Event
  disconnected : ℕ → ℕ → Event
  -- A reconnection task has ended: its guard takes the peer off the set.
  task_ended : ℕ → Event

abbrev pub has_addr : ℕ → Option Link → Bool
has_addr addr none = false
has_addr addr (some l) = l.addr == addr

abbrev pub without : ℕ → List ℕ → List ℕ
without p ps = keep (λ q. not (q == p)) ps

-- The reconnection task to start after a disconnect, if any.
abbrev start_reconnection : ℕ → Peers → ℕ → ℕ → Peers × Option (ℕ × ℕ)
start_reconnection max_attempts s p addr =
    if ltb 0 max_attempts && not (contains s.active p)
    then (record s { active = p ∷ s.active }, some (p, addr))
    else (s, none)

-- One event, with the task that it starts. The last connection of a peer wins, and the disconnect of
-- another address than the stored one is stale.
unfoldable pub handle_event : ℕ → Peers → Event → Peers × Option (ℕ × ℕ)
handle_event max_attempts s (established p addr sender) = (
  record s { connections = insert s.connections p (record { addr = addr; sender = sender }) },
  none,
)
handle_event max_attempts s (disconnected p addr) =
    if has_addr addr (get s.connections p)
    then start_reconnection max_attempts (record s { connections = remove s.connections p }) p addr
    else (s, none)
handle_event max_attempts s (task_ended p) = (record s { active = without p s.active }, none)

unfoldable pub handle_events : ℕ → Peers → List Event → Peers
handle_events max_attempts s [] = s
handle_events max_attempts s (e ∷ es) =
    handle_events max_attempts (handle_event max_attempts s e).0 es

-- The peers that a relayed message is sent to: all but its sender.
unfoldable pub relay_targets : Bool → Connections → ℕ → List ℕ
relay_targets relay_enabled m sender =
    if relay_enabled then keep (λ p. not (p == sender)) (map (λ e. e.0) m) else []
