-- ===== src/Changes.antt =====
-- The round change functions of crates/rbft/src/node_auxilliary_functions.rs.
pub mod Rounds
use rbft.Base.{
  ℕ, List, [], ◌∷◌, Option, none, some, Bool, true, false, ◌>>=◌, Exec, ok, ◌&&◌, ◌==◌, ltb, leb,
  if◌then◌else◌, map, all, filter_map, contains, distinct, length, is_some, min,
}
use rbft.Types.{
  Address, Block, RoundChange, SignedRoundChange, SignedPrepare, QbftMessage, round_change, prepare,
  Prepare,
}
use rbft.Env.{Env, digest}
use rbft.Chain
use rbft.Message.{recover_signed_round_change_author}
use rbft.Quorum.{quorum}
use rbft.Sign.{sign_round_change}
use rbft.Votes.{valid_prepares_for_height_round_and_digest}
use rbft.State.{NodeState, messages_received, messages_received_at_round}

abbrev pub extract_signed_prepares : List Prepare → List SignedPrepare
extract_signed_prepares = map λ p. p.prepare_payload

abbrev pub extract_signed_round_changes : List RoundChange → List SignedRoundChange
extract_signed_round_changes = map λ rc. rc.round_change_payload

abbrev future_round_change : ℕ → ℕ → QbftMessage → Option SignedRoundChange
future_round_change height round (round_change rc) =
    let u = rc.round_change_payload.unsigned_payload in
    if u.height == height && ltb round u.round then some rc.round_change_payload else none
future_round_change height round _ = none

unfoldable pub received_signed_round_changes_for_current_height_and_future_rounds :
    NodeState → List SignedRoundChange
received_signed_round_changes_for_current_height_and_future_rounds s =
    filter_map (future_round_change (Chain.height s.blockchain) s.round) (messages_received s)

-- The hash set of the senders, as a list without repetitions.
abbrev pub get_set_of_round_change_senders : List SignedRoundChange → List Address
get_set_of_round_change_senders rcs = distinct (map recover_signed_round_change_author rcs)

-- Both prepared fields or neither, and a prepared round below the round asked for.
abbrev prepared_before : Option ℕ → Option ℕ → ℕ → Bool
prepared_before none none round = true
prepared_before (some r) (some v) round = ltb r round
prepared_before _ _ round = false

unfoldable pub valid_round_change : SignedRoundChange → ℕ → ℕ → List Address → Bool
valid_round_change rc height round validators =
    let u = rc.unsigned_payload in
    u.height == height
    && u.round == round
    && prepared_before u.prepared_round u.prepared_value round
    && contains validators (recover_signed_round_change_author rc)

abbrev at_most : Option ℕ → Option ℕ → Bool
at_most none s = true
at_most (some m) none = false
at_most (some m) (some s) = leb m s

unfoldable pub is_highest_prepared : SignedRoundChange → List SignedRoundChange → Bool
is_highest_prepared rc rcs =
    let u = rc.unsigned_payload in
    is_some u.prepared_round
    && is_some u.prepared_value
    && all (λ m. at_most m.unsigned_payload.prepared_round u.prepared_round) rcs

-- `Iterator::min` with a first element.
min_from : ℕ → List SignedRoundChange → ℕ
min_from r [] = r
min_from r (rc ∷ rcs) = min_from (min r rc.unsigned_payload.round) rcs

unfoldable pub min_round : List SignedRoundChange → ℕ
unfolding min_from
min_round [] = 0
min_round (rc ∷ rcs) = min_from rc.unsigned_payload.round rcs

abbrev valid_round_change_message : NodeState → ℕ → QbftMessage → Option RoundChange
valid_round_change_message s new_round (round_change rc) =
    if valid_round_change rc.round_change_payload (Chain.height s.blockchain) new_round
      (Chain.validators s.blockchain)
    then some rc
    else none
valid_round_change_message s new_round _ = none

unfoldable pub valid_round_changes : NodeState → ℕ → List RoundChange
valid_round_changes s new_round =
    filter_map (valid_round_change_message s new_round) (messages_received_at_round s new_round)

abbrev prepare_at : ℕ → ℕ → QbftMessage → Option Prepare
prepare_at height round (prepare p) =
    let u = p.prepare_payload.unsigned_payload in
    if u.height == height && u.round == round then some p else none
prepare_at height round _ = none

unfoldable pub valid_prepares : NodeState → ℕ → List Prepare
valid_prepares s new_round =
    filter_map (prepare_at (Chain.height s.blockchain) new_round)
      (messages_received_at_round s new_round)

module _ ⦃env : Env⦄ where
  -- The prepares of the last prepared block, if they are a quorum.
  unfoldable pub justification_for : NodeState → ℕ → Block → List SignedPrepare
  justification_for s r b =
      let ps =
        valid_prepares_for_height_round_and_digest (Chain.height s.blockchain) r (digest b)
          (messages_received s) in
      if leb (quorum (length (Chain.validators s.blockchain))) (length ps) then ps else []

  -- A prepared block with no prepared round would panic.
  abbrev pub justify_prepared : NodeState → Option Block → Option ℕ → Exec (List SignedPrepare)
  justify_prepared s none r = ok []
  justify_prepared s (some b) none = Exec.panic
  justify_prepared s (some b) (some r) = ok (justification_for s r b)

  unfoldable pub get_round_change_justification : NodeState → Exec (List SignedPrepare)
  get_round_change_justification s = justify_prepared s s.last_prepared_block s.last_prepared_round

  abbrev prepared_digest : Option Block → Option ℕ
  prepared_digest none = none
  prepared_digest (some b) = some (digest b)

  unfoldable pub create_round_change : NodeState → ℕ → Exec RoundChange
  create_round_change s new_round = do
    payload ←
        sign_round_change
          (record {
            height = Chain.height s.blockchain;
            round = new_round;
            prepared_value = prepared_digest s.last_prepared_block;
            prepared_round = s.last_prepared_round;
          })
          s
    justification ← get_round_change_justification s
    ok (record {
      round_change_payload = payload;
      round_change_justification = justification;
      proposed_block_for_next_round = s.last_prepared_block;
    })
