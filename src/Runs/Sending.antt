-- ===== src/Runs/Sending.antt =====
-- What one step of a node does to the accepted proposal, and the commits that it sends.
use rbft.Base.{
  ℕ, ◌+◌, ◌^◌, ◌<◌, ◌≡◌, refl, sym, subst, ◌∙◌, List, Option, none, some, Exec, ok, Gives, Gives_ok,
  contains, if-holds,
}
use rbft.Types.{Address, PrivateKey, QbftMessageWithRecipient}
use rbft.Env.{Env}
use rbft.Chain.{Blockchain}
use rbft.Chain
use rbft.State.{NodeState}
use rbft.Node.{or_else, sent, try_each, node_next_sub_step, node_next}
use rbft.Node.Normal.{Transition}
use rbft.Node.Invariant.{Inv, HasKey, Handles}
use rbft.Node.Steps.{
  upon_block_timeout-Handles, upon_proposal-Handles, upon_prepare-Handles, upon_commit-Handles,
  upon_new_block-Handles,
}
use rbft.Node.RoundSteps.{upon_round_change-Handles}
use rbft.Runs.{clock-Inv}
use rbft.Runs.Steady.{Steady}
use rbft.Runs.Handlers.{
  upon_block_timeout-Steady, upon_proposal-Steady, upon_prepare-Steady, upon_commit-Steady,
  upon_new_block-Steady,
}
use rbft.Runs.RoundHandlers.{upon_round_change-Steady, upon_round_timeout-Steady}

pub ok-injective : {A : Type 0} {x y : A} → ok x ≡ ok y → x ≡ y
ok-injective e = cc

module _ ⦃env : Env⦄ (k : PrivateKey) (a : Address) (valid : env.signer_address k ≡ some a)
    (s : NodeState) (v : Inv s) (e : s.private_key ≡ some k) where
  -- A handler that does not fire hands the same state on.
  or_else-Steady :
      (first next : NodeState → Exec Transition)
      → Gives (first s) (Handles s)
      → Gives (first s) (Steady k a s)
      → Gives (next s) (Steady k a s)
      → Gives (or_else first next s) (Steady k a s)
  unfolding or_else
  or_else-Steady first next ((t, none), g, (h, idle)) _ n =
      rw g (subst (λ u. Gives (next u) (Steady k a s)) (sym (idle refl)) n)
  or_else-Steady first next ((t, some out), g, _) (r, h, st) n =
      rw g
        (Gives_ok (Steady k a s) (t, some out) (subst (Steady k a s) (ok-injective (sym h ∙ g)) st))

  try_each-Steady : s.round + 1 < 2 ^ 64 → Gives (try_each s) (Steady k a s)
  unfolding try_each
  try_each-Steady small =
      let key : HasKey s = (k, a, e, valid) in
      or_else-Steady _ _ (upon_new_block-Handles s v) (upon_new_block-Steady k a valid s v e) (
        or_else-Steady _ _ (upon_block_timeout-Handles s v key)
          (upon_block_timeout-Steady k a valid s v e)
          (or_else-Steady _ _ (upon_proposal-Handles s v key) (upon_proposal-Steady k a valid s v e)
            (or_else-Steady _ _ (upon_prepare-Handles s v key) (upon_prepare-Steady k a valid s v e)
              (or_else-Steady _ _ (upon_commit-Handles s v key) (upon_commit-Steady k a valid s v e)
                (or_else-Steady _ _ (upon_round_change-Handles s v key)
                  (upon_round_change-Steady k a valid s v e)
                  (upon_round_timeout-Steady k a valid s v e small))))))

  sub_step-Steady : s.round + 1 < 2 ^ 64 → Gives (node_next_sub_step s) (Steady k a s)
  unfolding node_next_sub_step
  sub_step-Steady small =
      if-holds (λ (m : Exec Transition). Gives m (Steady k a s))
        (contains (Chain.validators s.blockchain) s.id) _ _ (try_each-Steady small)
        (upon_new_block-Steady k a valid s v e)

-- A step, from its time on: what it sends, and the state with it.
abbrev pub IsSent :
    ⦃env : Env⦄
    → PrivateKey
    → Address
    → NodeState
    → NodeState × List QbftMessageWithRecipient
    → Type 0
IsSent k a s r =
    (o : Option (List QbftMessageWithRecipient)) × (sent o ≡ r.1) × Steady k a s (r.0, o)

pub node_next-IsSent :
    ⦃env : Env⦄ (k : PrivateKey) (a : Address) (s : NodeState) (time : ℕ)
    → env.signer_address k ≡ some a
    → Inv s
    → s.private_key ≡ some k
    → s.round + 1 < 2 ^ 64
    → Gives (node_next s time) (IsSent k a (record s { local_time = time }))
unfolding node_next
node_next-IsSent k a s time valid v e small =
    let t : NodeState = record s { local_time = time } in
    let (r, g, h) = sub_step-Steady k a valid t (clock-Inv s time v) e small in
    rw g (Gives_ok (IsSent k a t) (r.0, sent r.1) (r.1, refl, h))
