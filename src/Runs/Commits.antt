-- ===== src/Runs/Commits.antt =====
-- The commits that a node has sent over a run.
use mathlib.Core.List.{Memᴰ}
use rbft.Base.{
  ℕ, ◌+◌, ◌^◌, ◌<◌, ◌≡◌, refl, sym, ap, subst, ◌∙◌, inr, List, [], ◌∷◌, ◌++◌, none, some, arith, ok,
}
use rbft.Types.{Address, Block, SignedCommit, QbftMessage, QbftMessageWithRecipient}
use rbft.Env.{Env}
use rbft.Chain.{Blockchain}
use rbft.Chain
use rbft.Chain.Prune.{height-prune}
use rbft.Config.{Configuration}
use rbft.State.{
  NodeState, add_message, add_each, add_messages, insert_message_sorted,
  prune_messages_below_height,
}
use rbft.State
use rbft.State.Intake.{add_message_cases, add_each-blockchain}
use rbft.Node.{sent, node_next}
use rbft.Runs.{Next, Reach}
use rbft.Runs.Invariant.{Held, Next-Held, new-Inv}
use rbft.Runs.Steady.{IsLow, Keeps, commits_of}
use rbft.Runs.Remembered.{IsSingle-same, Faithful, Keeps-Faithful, Steady-Faithful}
use rbft.Runs.Sending.{node_next-IsSent, ok-injective}

-- The same proposal in the same round, whatever is received.
abbrev Same : NodeState → NodeState → Type 0
Same s t =
    (t.round ≡ s.round)
    × (t.proposal_accepted_for_current_round ≡ s.proposal_accepted_for_current_round)

insert_message-Same :
    (s t : NodeState) (m : QbftMessage) → Same s t → Same s (insert_message_sorted t m)
unfolding insert_message_sorted
insert_message-Same s t m h = ground arith

module _ ⦃env : Env⦄ where
  add_each-Same :
      (s : NodeState) (vs : List Address) (ms : List QbftMessage) (t : NodeState)
      → Same s t
      → Same s (add_each vs ms t)
  unfolding add_each
  add_each-Same s vs [] t h = h
  add_each-Same s vs (m ∷ ms) t h =
      add_each-Same s vs ms (add_message vs t m)
        (add_message_cases (Same s) vs t m h (λ _ _. insert_message-Same s t m h))

  pub add_messages-Keeps :
      (s : NodeState) (incoming : List QbftMessage) (time : ℕ)
      → Keeps s (add_messages s incoming time)
  unfolding add_messages prune_messages_below_height
  add_messages-Keeps s incoming time =
      let u : NodeState = record s { local_time = time } in
      let vs = Chain.validators s.blockchain in
      let h = add_each-Same u vs incoming u (refl, refl) in
      inr (record {
        height =
            height-prune (add_each vs incoming u).blockchain
            ∙ ap (λ c. Chain.height c) (add_each-blockchain vs incoming u);
        round = h.0;
        accepted = inr h.1;
      })

  offer-Keeps :
      (s : NodeState) (b : Block)
      → Keeps s (record s { blockchain = Chain.set_proposed_block s.blockchain (some b) })
  unfolding Chain.set_proposed_block Chain.height
  offer-Keeps s b = inr (record { height = refl; round = refl; accepted = inr refl })

  -- The commits sent by the steps of a run, the last first.
  unfoldable pub commits_along : {s t : NodeState} → Reach s t → List SignedCommit
  commits_along Reach.here = []
  commits_along (Reach.next run (Next.receive incoming time)) = commits_along run
  commits_along (Reach.next run (Next.step time t out small e)) =
      commits_of out ++ commits_along run
  commits_along (Reach.next run (Next.offer b e)) = commits_along run

  -- No head on the way is at the last height of 64 bits.
  unfoldable pub IsLowRun : {s t : NodeState} → Reach s t → Type 0
  IsLowRun Reach.here = Unit {0}
  IsLowRun (Reach.next {t} {u} run n) = IsLow u × IsLowRun run

module _ ⦃env : Env⦄ (k a : ℕ) (valid : env.signer_address k ≡ some a) where
  node_next-Faithful :
      (s t : NodeState) (time : ℕ) (out : List QbftMessageWithRecipient) (cs : List SignedCommit)
      → Held k s
      → s.round + 1 < 2 ^ 64
      → node_next s time ≡ ok (t, out)
      → IsLow t
      → Faithful k a s cs
      → Faithful k a t (commits_of out ++ cs)
  node_next-Faithful s t time out cs (v, e) small g low w =
      let (r, h, (o, q, st)) = node_next-IsSent k a s time valid v e small in
      let u : NodeState = record s { local_time = time } in
      let P = λ (x : NodeState × List QbftMessageWithRecipient).
        IsLow x.0 → Faithful k a x.0 (commits_of x.1 ++ cs) in
      let after : IsLow r.0 → Faithful k a r.0 (commits_of (sent o) ++ cs) =
        λ l. Steady-Faithful k a u (r.0, o) cs l st (record { done = w.done; single = w.single }) in
      subst P (ok-injective (sym h ∙ g)) (subst (λ sends. P (r.0, sends)) q after) low

  Next-Faithful :
      {s t u : NodeState} (run : Reach s t) (n : Next t u)
      → Held k t
      → IsLow u
      → Faithful k a t (commits_along run)
      → Faithful k a u (commits_along (Reach.next run n))
  unfolding commits_along
  Next-Faithful {t} run (Next.receive incoming time) h low w =
      Keeps-Faithful k a t (add_messages t incoming time) _ (add_messages-Keeps t incoming time) w
  Next-Faithful {t} run (Next.step time u out small g) h low w =
      node_next-Faithful t u time out _ h small g low w
  Next-Faithful {t} run (Next.offer b e) h low w = Keeps-Faithful k a t _ _ (offer-Keeps t b) w

  -- Along a run, whatever is received.
  Reach-Faithful :
      {s t : NodeState} (run : Reach s t)
      → Held k s
      → IsLowRun run
      → Held k t × Faithful k a t (commits_along run)
  unfolding commits_along IsLowRun
  Reach-Faithful Reach.here h low = (h, record { done = tt; single = tt })
  Reach-Faithful {s} (Reach.next {t} {u} run n) h (low, lows) =
      let (held, w) = Reach-Faithful run h lows in
      (Next-Held k a valid n held, Next-Faithful run n held low w)

  -- From a new node with a valid key, after any calls in any order over heads below the last height: two
  -- commits that it has sent for the same height and round are the same.
  pub run-commits_along :
      (bc : Blockchain) (c : Configuration) (start : ℕ) (s : NodeState)
      → bc.proposed_block ≡ none
      → (run : Reach (State.new bc c a (some k) start) s) → IsLowRun run
      → (x y : SignedCommit) → Memᴰ x (commits_along run)
      → Memᴰ y (commits_along run)
      → x.unsigned_payload.height ≡ y.unsigned_payload.height
      → x.unsigned_payload.round ≡ y.unsigned_payload.round
      → x ≡ y
  run-commits_along bc c start s p run low x y i j h r =
      let held : Held k (State.new bc c a (some k) start) =
        unfold State.new in (new-Inv bc c a (some k) start p, refl) in
      IsSingle-same (commits_along run) (Reach-Faithful run held low).1.single x y i j h r
