-- ===== src/Driver/Sync/CatchUp.antt =====
-- When a node asks for blocks.
use rbft.Base.{ℕ, ◌+◌, ◌≤◌, ◌<◌, ◌^◌, ◌≡◌, List, [], ◌∷◌, none, some, arith, AllOf}
use rbft.Types.{
  BlockRequest, QbftMessage, proposal, prepare, commit, round_change, new_block, block_request,
  block_response,
}
use rbft.Driver.Sync.{highest_newblock_message, catch_up_request}

-- The message is no new block above this height.
abbrev pub NotAbove : ℕ → QbftMessage → Type 0
NotAbove h (new_block b) = b.block.header.height ≤ h
NotAbove h _ = Unit {0}

NotAbove-le : (h k : ℕ) (m : QbftMessage) → h ≤ k → NotAbove h m → NotAbove k m
NotAbove-le h k (new_block b) l w = omega arith
NotAbove-le h k (proposal p) l w = tt
NotAbove-le h k (prepare p) l w = tt
NotAbove-le h k (commit p) l w = tt
NotAbove-le h k (round_change p) l w = tt
NotAbove-le h k (block_request p) l w = tt
NotAbove-le h k (block_response p) l w = tt

AllOf-NotAbove :
    (h k : ℕ) (ms : List QbftMessage) → h ≤ k → AllOf (NotAbove h) ms → AllOf (NotAbove k) ms
AllOf-NotAbove h k [] l w = tt
AllOf-NotAbove h k (m ∷ ms) l w = (NotAbove-le h k m l w.0, AllOf-NotAbove h k ms l w.1)

highest-NotAbove : (ms : List QbftMessage) → AllOf (NotAbove (highest_newblock_message ms)) ms
unfolding highest_newblock_message
highest-NotAbove [] = tt
highest-NotAbove (new_block b ∷ ms) = (
  omega arith,
  AllOf-NotAbove (highest_newblock_message ms) _ ms (omega arith) (highest-NotAbove ms),
)
highest-NotAbove (proposal p ∷ ms) = (tt, highest-NotAbove ms)
highest-NotAbove (prepare p ∷ ms) = (tt, highest-NotAbove ms)
highest-NotAbove (commit p ∷ ms) = (tt, highest-NotAbove ms)
highest-NotAbove (round_change p ∷ ms) = (tt, highest-NotAbove ms)
highest-NotAbove (block_request p ∷ ms) = (tt, highest-NotAbove ms)
highest-NotAbove (block_response p ∷ ms) = (tt, highest-NotAbove ms)

-- A node whose best block is at a height below 2^64 - 1 asks for blocks just where a new block above the
-- next height has come in: then for those from the next height to the highest of the new blocks, a
-- range that is not empty; otherwise every new block is of the next height or below.
pub catch_up_request_lem :
    (best : ℕ) (incoming : List QbftMessage)
    → best + 1 < 2 ^ 64
    → ((q : BlockRequest)
        → catch_up_request (best + 1) incoming ≡ some q
        → (q.from_height ≡ best + 1)
          × (q.from_height < q.to_height)
          × AllOf (NotAbove q.to_height) incoming)
      × (catch_up_request (best + 1) incoming ≡ none → AllOf (NotAbove (best + 1)) incoming)
unfolding catch_up_request
catch_up_request_lem best incoming small = (
  λ q e.
      let h = highest_newblock_message incoming in
      let last : q.to_height ≡ h = ground arith in
      (ground arith, ground arith, rw last (highest-NotAbove incoming)),
  λ e.
      AllOf-NotAbove (highest_newblock_message incoming) (best + 1) incoming (ground arith)
        (highest-NotAbove incoming),
)
