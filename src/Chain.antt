-- ===== src/Chain.antt =====
-- crates/rbft/src/types/blockchain.rs. The deque is kept newest first, and apart from its head,
-- since `new` refuses an empty one and nothing else takes the last block away.
pub mod Prune
use mathlib.Core.List.{reverse}
use rbft.Base.{
  ℕ, suc, ◌+◌, ◌-◌, ◌*◌, List, [], ◌∷◌, Option, none, Exec, ok, panic, ◌==◌, ltb, if◌then◌else◌,
  u64, length, take,
}
use rbft.Types.{Address, Block}

abbrev pub max_blocks : ℕ
max_blocks = 32

pub record Blockchain : Type 0 where
  pub proposed_block : Option Block
  pub head : Block
  -- The blocks below the head, newest first.
  pub older : List Block

chain_of : List Block → Exec Blockchain
chain_of [] = panic
chain_of (b ∷ bs) = ok (record { proposed_block = none; head = b; older = bs })

-- `new`: the blocks come oldest first; it asserts that there is one.
unfoldable pub new : List Block → Exec Blockchain
unfolding chain_of
new blocks = chain_of (reverse blocks)

unfoldable pub blocks : Blockchain → List Block
blocks bc = reverse (bc.head ∷ bc.older)

unfoldable pub set_proposed_block : Blockchain → Option Block → Blockchain
set_proposed_block bc b = record bc { proposed_block = b }

unfoldable pub take_proposed_block : Blockchain → Blockchain × Option Block
take_proposed_block bc = (record bc { proposed_block = none }, bc.proposed_block)

unfoldable pub height : Blockchain → ℕ
height bc = u64 (bc.head.header.height + 1)

unfoldable pub set_head : Blockchain → Block → Blockchain
set_head bc b = record bc { head = b; older = bc.head ∷ bc.older }

abbrev pub validators : Blockchain → List Address
validators bc = bc.head.header.validators

-- `pop_front`, as often as given: the oldest blocks go.
pop_front : ℕ → List Block → List Block
pop_front n bs = take (length bs - n) bs

unfoldable pub prune : Blockchain → Blockchain
unfolding pop_front
prune bc =
    let len = suc (length bc.older) in
    if ltb max_blocks len then record bc { older = pop_front (len - max_blocks) bc.older } else bc

count_same : ℕ → List Block → ℕ
count_same ts [] = 0
count_same ts (b ∷ bs) =
    let rest = count_same ts bs in if b.header.timestamp == ts then suc rest else 0

-- A u128 holds the result, so nothing wraps.
unfoldable pub estimate_timestamp_ms : Blockchain → ℕ → ℕ
unfolding count_same
estimate_timestamp_ms bc interval =
    let ts = bc.head.header.timestamp in ts * 1000 + count_same ts bc.older * interval
