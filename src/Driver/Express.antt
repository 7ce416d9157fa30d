-- ===== src/Driver/Express.antt =====
-- `express_delivery` of crates/rbft-node/src/rbft_consensus.rs: the node's own transactions go straight to
-- the next proposer. The pool, its clock and the channels are parameters.
use rbft.Base.{
  ℕ, ◌≤◌, ◌<◌, ◌≡◌, refl, List, [], ◌∷◌, Option, none, some, Bool, true, false, ◌==◌, ltb, max,
  if◌then◌else◌, keep, map, arith, Bool-cases, Option-cases, inl, inr, filter_map, is_empty, ap,
  sym, ◌∙◌,
}
use rbft.Types.{Address, Bytes}
use rbft.State.{NodeState, next_proposer_for_current_round}
use rbft.Driver.Peers.{Link, Connections, get}

-- A local transaction of the pool: when it came, and its encoding.
pub record Pending : Type 0 where
  pub timestamp : ℕ
  pub encoded : Bytes

-- The batches that have come in from peers, as they are added to the pool: what is no transaction is
-- left out, and so is a batch with none.
unfoldable pub receive_batches :
    {A : Type 0} → (Bytes → Option A) → List (List Bytes) → List (List A)
receive_batches decode [] = []
receive_batches decode (batch ∷ batches) =
    let rest = receive_batches decode batches in
    let txs = filter_map decode batch in if is_empty txs then rest else txs ∷ rest

-- The peer of the first validator with this address; the lists are zipped.
unfoldable pub proposer_peer : List Address → List ℕ → Address → Option ℕ
proposer_peer (a ∷ validators) (peer ∷ enodes) proposer =
    let rest = proposer_peer validators enodes proposer in if a == proposer then some peer else rest
proposer_peer _ _ proposer = none

-- The transactions that came after the cutoff.
abbrev pub fresh : ℕ → List Pending → List Pending
fresh cutoff txs = keep (λ t. ltb cutoff t.timestamp) txs

-- The latest time among some transactions.
unfoldable pub latest : List Pending → ℕ
latest [] = 0
latest (t ∷ ts) = max t.timestamp (latest ts)

-- What is sent, and the new cutoff, which moves only where the send succeeds.
abbrev pub Delivery : Type 0
Delivery = Option (ℕ × List Bytes) × ℕ

abbrev send_over : (ℕ → Bool) → ℕ → ℕ → List Pending → Option Link → Delivery
send_over try_send cutoff peer txs none = (none, cutoff)
send_over try_send cutoff peer txs (some link) =
    if try_send link.sender
    then (some (peer, map (λ t. t.encoded) txs), latest txs)
    else (none, cutoff)

abbrev send_to : (ℕ → Bool) → Connections → ℕ → ℕ → List Pending → Delivery
send_to try_send connections cutoff peer txs =
    if is_empty txs
    then (none, cutoff)
    else send_over try_send cutoff peer txs (get connections peer)

abbrev deliver : (ℕ → Bool) → Connections → ℕ → ℕ → List Pending → Option ℕ → Delivery
deliver try_send connections local_peer cutoff pending none = (none, cutoff)
deliver try_send connections local_peer cutoff pending (some peer) =
    if peer == local_peer
    then (none, cutoff)
    else send_to try_send connections cutoff peer (fresh cutoff pending)

-- The second half of `express_delivery`.
unfoldable pub express_delivery :
    (ℕ → Bool) → Connections → List Address → List ℕ → ℕ → NodeState → ℕ → List Pending → Delivery
express_delivery try_send connections validators enodes local_peer s cutoff pending =
    deliver try_send connections local_peer cutoff pending
      (proposer_peer validators enodes (next_proposer_for_current_round s))

-- What a delivery gives.
pub record IsDelivery (local_peer cutoff : ℕ) (pending : List Pending) (d : Delivery) : Type 0 where
  pub unsent : d.0 ≡ none → d.1 ≡ cutoff
  pub sent :
      (peer : ℕ) (batch : List Bytes)
      → d.0 ≡ some (peer, batch)
      → ((peer == local_peer) ≡ false)
        × (batch ≡ map (λ t. t.encoded) (fresh cutoff pending))
        × (cutoff < d.1)
        × (fresh d.1 pending ≡ [])

fresh-le :
    (cutoff c : ℕ) (txs : List Pending)
    → latest (fresh cutoff txs) ≤ c
    → cutoff ≤ c
    → fresh c txs ≡ []
unfolding latest
fresh-le cutoff c [] h l = refl
fresh-le cutoff c (t ∷ ts) h l = ground (arith, fresh-le cutoff c ts)

latest-above :
    (cutoff : ℕ) (txs : List Pending)
    → is_empty (fresh cutoff txs) ≡ false
    → cutoff < latest (fresh cutoff txs)
unfolding latest
latest-above cutoff [] h = cc
latest-above cutoff (t ∷ ts) h = elim (Bool-cases (ltb cutoff t.timestamp)) [
  | inl e ↦ let later : cutoff < t.timestamp = ground arith in rw e (omega arith)
  | inr e ↦ rw e (latest-above cutoff ts (rw e at h))
]

nothing-IsDelivery :
    (local_peer cutoff : ℕ) (pending : List Pending)
    → IsDelivery local_peer cutoff pending (none, cutoff)
nothing-IsDelivery local_peer cutoff pending = record {
  unsent = λ e. refl;
  sent = λ peer batch e. cc;
}

send_over-IsDelivery :
    (try_send : ℕ → Bool) (local_peer cutoff peer : ℕ) (pending : List Pending) (link : Option Link)
    → (peer == local_peer) ≡ false
    → is_empty (fresh cutoff pending) ≡ false
    → IsDelivery local_peer cutoff pending
        (send_over try_send cutoff peer (fresh cutoff pending) link)
send_over-IsDelivery try_send local_peer cutoff peer pending none other n =
    nothing-IsDelivery local_peer cutoff pending
send_over-IsDelivery try_send local_peer cutoff peer pending (some link) other n =
    elim (Bool-cases (try_send link.sender)) [
      | inr e ↦ rw e (nothing-IsDelivery local_peer cutoff pending)
      | inl e ↦
          let above = latest-above cutoff pending n in
          rw e (record {
            unsent = λ x. cc;
            sent = λ p batch x.
                let same : peer ≡ p = cc in
                (
                  ap (λ q. q == local_peer) (sym same) ∙ other,
                  cc,
                  above,
                  fresh-le cutoff (latest (fresh cutoff pending)) pending (omega arith)
                      (omega arith),
                );
          })
    ]

express_delivery-sent :
    (try_send : ℕ → Bool) (connections : Connections) (validators : List Address) (enodes : List ℕ)
    (local_peer : ℕ) (s : NodeState) (cutoff : ℕ) (pending : List Pending)
    → IsDelivery local_peer cutoff pending
        (express_delivery try_send connections validators enodes local_peer s cutoff pending)
unfolding express_delivery
express_delivery-sent try_send connections validators enodes local_peer s cutoff pending =
    let nothing = nothing-IsDelivery local_peer cutoff pending in
    elim (Option-cases (proposer_peer validators enodes (next_proposer_for_current_round s))) [
      | inl n ↦ rw n nothing
      | inr (peer, n) ↦ elim (Bool-cases (peer == local_peer)) [
        | inl self ↦ rw (n, self) nothing
        | inr other ↦ elim (Bool-cases (is_empty (fresh cutoff pending))) [
          | inl empty ↦ rw (n, other, empty) nothing
          | inr some_new ↦
              rw (n, other, some_new)
                (send_over-IsDelivery try_send local_peer cutoff peer pending (get connections peer)
                  other some_new)
        ]
      ]
    ]

-- If the next proposer is a validator with another node, which is connected and takes the message, then
-- the transactions that came after the cutoff, if any, are sent to it. Whatever is sent goes to another
-- node, is all that came after the cutoff, and moves the cutoff on to where no transaction of the pool
-- came later, so that none is sent twice; where nothing is sent the cutoff stays, so that none is lost.
pub express_delivery-IsDelivery :
    (try_send : ℕ → Bool) (connections : Connections) (validators : List Address) (enodes : List ℕ)
    (local_peer : ℕ) (s : NodeState) (cutoff : ℕ) (pending : List Pending)
    → let d = express_delivery try_send connections validators enodes local_peer s cutoff pending in
      IsDelivery local_peer cutoff pending d
      × ((peer : ℕ) (link : Link)
          → proposer_peer validators enodes (next_proposer_for_current_round s) ≡ some peer
          → (peer == local_peer) ≡ false
          → get connections peer ≡ some link
          → try_send link.sender ≡ true
          → is_empty (fresh cutoff pending) ≡ false
          → d.0 ≡ some (peer, map (λ t. t.encoded) (fresh cutoff pending)))
unfolding express_delivery
express_delivery-IsDelivery try_send connections validators enodes local_peer s cutoff pending = (
  express_delivery-sent try_send connections validators enodes local_peer s cutoff pending,
  λ peer link at other found taken some_new. rw (at, other, some_new, found, taken) refl,
)
