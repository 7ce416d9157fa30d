-- ===== src/Changes/Rounds.antt =====
-- The rounds of the round changes that a node follows.
use rbft.Base.{ℕ, ◌<◌, List, [], ◌∷◌, arith, AllOf, filter_map, length, min}
use rbft.Types.{SignedRoundChange, QbftMessage}
use rbft.Chain
use rbft.State.{NodeState, messages_received}
use rbft.Changes.{
  future_round_change, received_signed_round_changes_for_current_height_and_future_rounds, min_from,
  min_round, get_set_of_round_change_senders,
}

filter_map-future :
    (h r : ℕ) (ms : List QbftMessage)
    → AllOf (λ rc. r < rc.unsigned_payload.round) (filter_map (future_round_change h r) ms)
filter_map-future h r [] = tt
filter_map-future h r (QbftMessage.round_change rc ∷ ms) = ground (arith, filter_map-future h r ms)
filter_map-future h r (QbftMessage.proposal p ∷ ms) = filter_map-future h r ms
filter_map-future h r (QbftMessage.prepare p ∷ ms) = filter_map-future h r ms
filter_map-future h r (QbftMessage.commit p ∷ ms) = filter_map-future h r ms
filter_map-future h r (QbftMessage.new_block p ∷ ms) = filter_map-future h r ms
filter_map-future h r (QbftMessage.block_request p ∷ ms) = filter_map-future h r ms
filter_map-future h r (QbftMessage.block_response p ∷ ms) = filter_map-future h r ms

min_from-gt :
    (r n : ℕ) (rcs : List SignedRoundChange)
    → r < n
    → AllOf (λ rc. r < rc.unsigned_payload.round) rcs
    → r < min_from n rcs
unfolding min_from
min_from-gt r n [] l w = l
min_from-gt r n (rc ∷ rcs) l w =
    min_from-gt r (min n rc.unsigned_payload.round) rcs (omega (arith, w.0)) w.1

min_round-gt :
    (r : ℕ) (rcs : List SignedRoundChange)
    → AllOf (λ rc. r < rc.unsigned_payload.round) rcs
    → 0 < length (get_set_of_round_change_senders rcs)
    → r < min_round rcs
unfolding min_round
min_round-gt r [] w l = absurd (omega arith)
min_round-gt r (rc ∷ rcs) w l = min_from-gt r rc.unsigned_payload.round rcs w.0 w.1

-- The round that a node moves to when it follows others is later than its own.
pub min_round-received :
    (s : NodeState)
    → let rcs = received_signed_round_changes_for_current_height_and_future_rounds s in
      0 < length (get_set_of_round_change_senders rcs) → s.round < min_round rcs
unfolding received_signed_round_changes_for_current_height_and_future_rounds
min_round-received s l =
    min_round-gt s.round _
      (filter_map-future (Chain.height s.blockchain) s.round (messages_received s)) l
