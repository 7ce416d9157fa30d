-- ===== src/Node/Timeouts.antt =====
-- The round timeout of crates/rbft/src/node.rs.
use rbft.Base.{
  ℕ, ◌+◌, ◌-◌, Option, none, some, Bool, true, false, ◌&&◌, ◌||◌, not, ◌==◌, ltb, leb,
  if◌then◌else◌, u64, ◌>>=◌, Exec, ok, length, max,
}
use rbft.Types.{round_change}
use rbft.Env.{Env}
use rbft.Chain
use rbft.Quorum.{f}
use rbft.State.{NodeState, insert_message_sorted, update_round_zero_progress, next_round_timeout}
use rbft.Votes.{round_zero_progress_counts}
use rbft.Changes.{create_round_change}
use rbft.Node.Normal.{Transition, multicast}

-- With progress now, or within the block time, round 0 is given more time.
unfoldable pub grant_grace : NodeState × Bool → NodeState × Bool
grant_grace (t, progressed) =
    if progressed
      || ltb (t.local_time - t.round_zero_last_progress_time) (max t.configuration.block_time 1)
    then (record t { time_last_round_start = t.local_time }, true)
    else (t, false)

unfoldable pub defer_for : NodeState → ℕ → ℕ → NodeState × Bool
unfolding grant_grace
defer_for s prepares commits =
    let len = length (Chain.validators s.blockchain) in
    if len == 0 || not (leb (f len + 1) prepares || ltb 0 commits)
    then (s, false)
    else grant_grace (update_round_zero_progress s prepares commits)

abbrev pub defer_if : NodeState → Option (ℕ × ℕ) → NodeState × Bool
defer_if s none = (s, false)
defer_if s (some (prepares, commits)) = defer_for s prepares commits

module _ ⦃env : Env⦄ where
  -- `saturating_sub` is the subtraction on ℕ.
  unfoldable pub defer_round_zero_timeout : NodeState → NodeState × Bool
  unfolding defer_for
  defer_round_zero_timeout s = defer_if s (round_zero_progress_counts s)

  unfoldable pub move_to_next_round : NodeState → Exec Transition
  move_to_next_round s = do
    let r = u64 (s.round + 1)
    rc ← create_round_change s r
    let t = record s {
      time_last_round_start = s.local_time;
      round = r;
      proposal_accepted_for_current_round = none;
    }
    ok (
      insert_message_sorted t (round_change rc),
      some (multicast (Chain.validators t.blockchain) (round_change rc)),
    )

  -- Deferred, or not: the deferral may have recorded progress either way.
  abbrev pub unless_deferred : NodeState × Bool → Exec Transition
  unless_deferred (t, true) = ok (t, none)
  unless_deferred (t, false) = move_to_next_round t

  unfoldable pub upon_round_timeout : NodeState → Exec Transition
  upon_round_timeout s =
      if not s.configuration.round_change_config.round_change_on_first_block
        && Chain.height s.blockchain == 1
      then ok (s, none)
      else if leb (next_round_timeout s) s.local_time
      then if s.round == 0
        then unless_deferred (defer_round_zero_timeout s)
        else move_to_next_round s
      else ok (s, none)
