-- ===== src/Runs.antt =====
-- A step of a node, and runs of steps among the calls of its environment.
pub mod Steady
pub mod Handlers
pub mod RoundHandlers
pub mod Sending
pub mod Remembered
pub mod Commits
pub mod Agreement
pub mod Invariant
use mathlib.Core.List.{reverse}
use rbft.Base.{
  ℕ, ◌+◌, ◌≤◌, ◌<◌, ◌^◌, ◌≡◌, refl, sym, subst, List, [], Option, none, some, Bool, true, false,
  arith, Exec, ok, ◌>>=◌, Gives, Gives_ok, contains, if◌then◌else◌, find_map, Bool-cases, inl, inr,
}
use rbft.Types.{Block, QbftMessageWithRecipient, QbftMessage}
use rbft.Env.{Env}
use rbft.Chain
use rbft.State.{NodeState, add_messages}
use rbft.Node.Normal.{
  Transition, on_some, valid_new_block_in, upon_block_timeout, upon_proposal, upon_prepare,
  upon_commit, upon_new_block,
}
use rbft.Node.Changing.{upon_round_change}
use rbft.Node.Timeouts.{upon_round_timeout}
use rbft.Node.{or_else, sent, try_each, node_next_sub_step, node_next}
use rbft.Node.Invariant.{Inv, IsStep, Handles, HasKey}
use rbft.Node.Steps.{
  upon_block_timeout-Handles, upon_proposal-Handles, upon_prepare-Handles, upon_commit-Handles,
  upon_new_block-Handles,
}
use rbft.Node.RoundSteps.{upon_round_change-Handles, upon_round_timeout-IsStep}

on_some-silent :
    {A : Type 0} (s : NodeState) (o : Option A) (f : A → NodeState) (r : Transition)
    → on_some o s (λ a. ok (f a, some [])) ≡ ok r
    → sent r.1 ≡ []
on_some-silent s none f r e = ground arith
on_some-silent s (some a) f r e = ground arith

module _ ⦃env : Env⦄ (s : NodeState) (v : Inv s) where
  abbrev Stepped : Exec Transition → Type 0
  Stepped m = Gives m (λ r. IsStep s r.0)

  -- A handler that does not fire hands the same state on.
  or_else-Stepped :
      (first next : NodeState → Exec Transition)
      → Gives (first s) (Handles s)
      → Stepped (next s)
      → Stepped (or_else first next s)
  unfolding or_else
  or_else-Stepped first next ((t, none), e, (h, idle)) n =
      rw e (subst (λ u. Gives (next u) (λ r. IsStep s r.0)) (sym (idle refl)) n)
  or_else-Stepped first next ((t, some out), e, (h, idle)) n =
      rw e (Gives_ok (λ r. IsStep s r.0) (t, some out) h)

  try_each-Stepped : s.round + 1 < 2 ^ 64 → HasKey s → Stepped (try_each s)
  unfolding try_each
  try_each-Stepped small k = or_else-Stepped _ _ (upon_new_block-Handles s v) (
      or_else-Stepped _ _ (upon_block_timeout-Handles s v k) (
        or_else-Stepped _ _ (upon_proposal-Handles s v k) (
          or_else-Stepped _ _ (upon_prepare-Handles s v k) (
            or_else-Stepped _ _ (upon_commit-Handles s v k) (
              or_else-Stepped _ _ (upon_round_change-Handles s v k)
                (upon_round_timeout-IsStep s v small k))))))

  silent : (r : Transition) → upon_new_block s ≡ ok r → sent r.1 ≡ []
  unfolding upon_new_block
  silent r e =
      on_some-silent s (find_map (valid_new_block_in s) (reverse s.messages_received)) _ r e

  handlers-Stepped :
      (member : Bool)
      → s.round + 1 < 2 ^ 64
      → (member ≡ true → HasKey s)
      → Gives
          (if member then try_each s else upon_new_block s)
          (λ r. IsStep s r.0 × (member ≡ false → sent r.1 ≡ []))
  handlers-Stepped true small key =
      let (r, e, h) = try_each-Stepped small (key refl) in (r, e, (h, λ n. cc))
  handlers-Stepped false small key =
      let (r, e, h) = upon_new_block-Handles s v in (r, e, (h.0, λ _. silent r e))

-- Setting the clock keeps the invariant.
pub clock-Inv : (s : NodeState) (time : ℕ) → Inv s → Inv (record s { local_time = time })
clock-Inv s time v = record {
  store = record { sorted = v.store.sorted; indexed = v.store.indexed; slice = v.store.slice };
  prepared = v.prepared;
  proposed = v.proposed;
  accepted = v.accepted;
}

module _ ⦃env : Env⦄ where
  -- A step never panics: from a state that satisfies the invariant, in a round below 2^64 - 1, with a
  -- valid private key if the node is a validator, it returns. The state that it returns satisfies
  -- the invariant, has the same identity, key and configuration and the time given, and has not gone
  -- back: it is at the same chain in the same or a later round, or in round 0 over one new head that is
  -- not below the height. A node that is no validator sends nothing.
  pub node_next-IsStep :
      (s : NodeState) (time : ℕ)
      → Inv s
      → s.round + 1 < 2 ^ 64
      → (contains (Chain.validators s.blockchain) s.id ≡ true → HasKey s)
      → Gives (node_next s time) (λ r.
        IsStep (record s { local_time = time }) r.0
        × (contains (Chain.validators s.blockchain) s.id ≡ false → r.1 ≡ []))
  unfolding node_next node_next_sub_step
  node_next-IsStep s time v small key =
      let t : NodeState = record s { local_time = time } in
      let (r, e, h) =
        handlers-Stepped t (clock-Inv s time v) (contains (Chain.validators s.blockchain) s.id)
          small key in
      ((r.0, sent r.1), rw e, h)

  -- The calls that a node sees: messages come in, a step is made, a block of the current height is
  -- offered for proposal.
  pub data Next (s : NodeState) : NodeState → Type 0 where
    receive : (incoming : List QbftMessage) (time : ℕ) → Next s (add_messages s incoming time)
    step :
        (time : ℕ) (t : NodeState) (out : List QbftMessageWithRecipient)
        → s.round + 1 < 2 ^ 64
        → node_next s time ≡ ok (t, out)
        → Next s t
    offer :
        (b : Block)
        → b.header.height ≡ Chain.height s.blockchain
        → Next s (record s { blockchain = Chain.set_proposed_block s.blockchain (some b) })

  pub data Reach (s : NodeState) : NodeState → Type 0 where
    here : Reach s s
    next : {t u : NodeState} → Reach s t → Next t u → Reach s u
