-- ===== src/Node.antt =====
-- crates/rbft/src/node.rs: one handler for each event, and their order in a step. A handler returns
-- the new state and, if it fired, the messages to send.
pub mod Normal
pub mod Timeouts
pub mod Changing
pub mod Invariant
pub mod Steps
pub mod Deferred
pub mod RoundSteps
pub mod Announced
pub mod Prepared
pub mod Adopted
use rbft.Base.{ℕ, List, [], Option, none, some, ◌>>=◌, Exec, ok, contains, if◌then◌else◌, Bool}
use rbft.Types.{QbftMessageWithRecipient}
use rbft.Env.{Env}
use rbft.Chain
use rbft.State.{NodeState}
use Normal.{
  Transition, upon_block_timeout, upon_proposal, upon_prepare, upon_commit, upon_new_block,
}
use Timeouts.{upon_round_timeout}
use Changing.{upon_round_change}

-- `if let Some(messages) = first(current) { messages } else { … }`.
unfoldable pub or_else :
    (NodeState → Exec Transition) → (NodeState → Exec Transition) → NodeState → Exec Transition
or_else first next s = first s >>= λ r. elim r.1 [ none ↦ next r.0 | some out ↦ ok r ]

-- `unwrap_or_default`.
abbrev pub sent : Option (List QbftMessageWithRecipient) → List QbftMessageWithRecipient
sent none = []
sent (some out) = out

module _ ⦃env : Env⦄ where
  unfoldable pub try_each : NodeState → Exec Transition
  try_each = or_else upon_new_block (
      or_else upon_block_timeout (
        or_else upon_proposal (
          or_else upon_prepare
            (or_else upon_commit (or_else upon_round_change upon_round_timeout)))))

  unfoldable pub node_next_sub_step : NodeState → Exec Transition
  node_next_sub_step s =
      if contains (Chain.validators s.blockchain) s.id then try_each s else upon_new_block s

  unfoldable pub node_next : NodeState → ℕ → Exec (NodeState × List QbftMessageWithRecipient)
  node_next s time = do r ← node_next_sub_step (record s { local_time = time }); ok (r.0, sent r.1)
