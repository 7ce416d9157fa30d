-- ===== src/Driver/Peers/Register.antt =====
-- The connection of one peer as a register: what the map keeps for it.
use rbft.Base.{
  ℕ, ◌≡◌, refl, ◌∙◌, ap, List, [], ◌∷◌, Option, none, some, true, false, ◌&&◌, not, ◌==◌,
  if◌then◌else◌, arith, contains, IsDistinct, Bool-cases, inl, inr, keep-IsDistinct,
}
use rbft.Driver.Peers.{
  Link, Connections, get, remove, insert, Peers, Event, established, disconnected, task_ended,
  has_addr, handle_event, handle_events,
}

pub get-remove :
    (m : Connections) (p q : ℕ) → get (remove m p) q ≡ (if p == q then none else get m q)
unfolding get remove
get-remove [] p q = ground arith
get-remove ((r, l) ∷ m) p q = elim (Bool-cases (r == p)) [
  | inl e ↦ rw (remove, e) (ground (arith, get-remove m p q))
  | inr e ↦ rw (remove, e) (ground (arith, get-remove m p q))
]

get-insert :
    (m : Connections) (p q : ℕ) (l : Link)
    → get (insert m p l) q ≡ (if p == q then some l else get m q)
unfolding insert get
get-insert m p q l = ground (arith, get-remove m p q)

-- The register of a peer: an event of another peer leaves it, a connection sets it, and a disconnect
-- clears it if it is of the address that it holds.
pub register : ℕ → Option Link → Event → Option Link
register p l (established q addr sender) =
    if q == p then some (record { addr = addr; sender = sender }) else l
register p l (disconnected q addr) = if q == p && has_addr addr l then none else l
register p l (task_ended q) = l

pub registers : ℕ → Option Link → List Event → Option Link
registers p l [] = l
registers p l (e ∷ es) = registers p (register p l e) es

get-same : (m : Connections) (p q : ℕ) → (p == q) ≡ true → get m p ≡ get m q
get-same m p q e = let same : p ≡ q = ground arith in ap (get m) same

disconnected-connections :
    (n : ℕ) (s : Peers) (q addr : ℕ)
    → (handle_event n s (disconnected q addr)).0.connections
      ≡ (if has_addr addr (get s.connections q) then remove s.connections q else s.connections)
unfolding handle_event
disconnected-connections n s q addr = ground arith

disconnected-register :
    (m : Connections) (q p addr : ℕ)
    → get (if has_addr addr (get m q) then remove m q else m) p
      ≡ register p (get m p) (disconnected q addr)
unfolding register
disconnected-register m q p addr = elim (Bool-cases (q == p)) [
  | inl e ↦ ground (arith, get-same m q p e, get-remove m q p)
  | inr e ↦ ground (arith, get-remove m q p)
]

handle_event-register :
    (max_attempts : ℕ) (s : Peers) (e : Event) (p : ℕ)
    → get (handle_event max_attempts s e).0.connections p ≡ register p (get s.connections p) e
unfolding handle_event register
handle_event-register n s (established q addr sender) p =
    get-insert s.connections q p (record { addr = addr; sender = sender })
handle_event-register n s (disconnected q addr) p =
    ap (λ m. get m p) (disconnected-connections n s q addr)
    ∙ disconnected-register s.connections q p addr
handle_event-register n s (task_ended q) p = refl

-- The connection map is a register for each peer: after any events, in any order and of any peers, what
-- it holds for a peer is what the peer's register holds after the same events, so that events of other
-- peers do not matter to it.
pub handle_events-registers :
    (max_attempts : ℕ) (s : Peers) (es : List Event) (p : ℕ)
    → get (handle_events max_attempts s es).connections p ≡ registers p (get s.connections p) es
unfolding handle_events registers
handle_events-registers n s [] p = refl
handle_events-registers n s (e ∷ es) p =
    handle_events-registers n (handle_event n s e).0 es p
    ∙ ap (λ l. registers p l es) (handle_event-register n s e p)

-- Neither connects the peer, nor reports the end of its connection at this address.
abbrev pub LeavesAlone : ℕ → ℕ → Event → Type 0
LeavesAlone p addr (established q a sender) = (q == p) ≡ false
LeavesAlone p addr (disconnected q a) = (q == p && a == addr) ≡ false
LeavesAlone p addr (task_ended q) = Unit {0}

abbrev pub LeaveAlone : ℕ → ℕ → List Event → Type 0
LeaveAlone p addr [] = Unit {0}
LeaveAlone p addr (e ∷ es) = LeavesAlone p addr e × LeaveAlone p addr es

register-kept :
    (p : ℕ) (l : Link) (e : Event) → LeavesAlone p l.addr e → register p (some l) e ≡ some l
unfolding register
register-kept p l (established q a sender) h = ground arith
register-kept p l (disconnected q a) h = ground arith
register-kept p l (task_ended q) h = refl

registers-kept :
    (p : ℕ) (l : Link) (es : List Event) → LeaveAlone p l.addr es → registers p (some l) es ≡ some l
unfolding registers
registers-kept p l [] h = refl
registers-kept p l (e ∷ es) h =
    ap (λ k. registers p k es) (register-kept p l e h.0) ∙ registers-kept p l es h.1

-- A live connection is kept: once a peer has connected, then as long as it does not connect again and no
-- disconnect of this address is reported, the map holds this connection, whatever other disconnects of
-- the peer (those of connections that it replaced) and events of other peers come in.
pub handle_events-keeps_live :
    (max_attempts : ℕ) (s : Peers) (p addr sender : ℕ) (es : List Event)
    → LeaveAlone p addr es
    → get (handle_events max_attempts s (established p addr sender ∷ es)).connections p
      ≡ some (record { addr = addr; sender = sender })
unfolding registers register
handle_events-keeps_live n s p addr sender es h =
    let l : Link = record { addr = addr; sender = sender } in
    let here : (p == p) ≡ true = ground arith in
    handle_events-registers n s (established p addr sender ∷ es) p
    ∙ rw (registers, here) (registers-kept p l es h)

-- At most one task reconnects to a peer: no peer stands twice in the set of the peers that are being
-- reconnected to, after any event; and a task is started only for a peer that was not in the set, has
-- just lost its connection, and is in the set afterwards.
pub handle_event-one_task :
    (max_attempts : ℕ) (s : Peers) (e : Event)
    → IsDistinct s.active
    → IsDistinct (handle_event max_attempts s e).0.active
      × ((p addr : ℕ)
          → (handle_event max_attempts s e).1 ≡ some (p, addr)
          → (e ≡ disconnected p addr)
            × (contains s.active p ≡ false)
            × (contains (handle_event max_attempts s e).0.active p ≡ true)
            × (get (handle_event max_attempts s e).0.connections p ≡ none))
unfolding handle_event
handle_event-one_task n s (established q a sender) d = (d, λ p addr h. cc)
handle_event-one_task n s (disconnected q a) d =
    (ground arith, λ p addr h. ground (arith, get-remove s.connections q q))
handle_event-one_task n s (task_ended q) d =
    (keep-IsDistinct (λ x. not (x == q)) s.active d, λ p addr h. cc)
