-- ===== src/Node/Deferred.antt =====
-- The deferral of a round timeout against what a handler may do.
use rbft.Base.{
  ℕ, ◌+◌, ◌≤◌, ◌≡◌, refl, Option, none, some, Bool, ◌∷◌, ◌∙◌, subst, ◌⊎◌, if-holds, ltb, leb,
  length, ◌||◌, not, ◌==◌, ◌-◌, max,
}
use rbft.Types.{Block}
use rbft.Chain
use rbft.State.{NodeState, update_round_zero_progress}
use rbft.Quorum.{f}
use rbft.Node.Timeouts.{grant_grace, defer_if, defer_for}
use rbft.Node.Invariant.{Inv, IsStep}

-- A deferral touches only the progress counters and the round's start.
pub record IsDeferred (s t : NodeState) : Type 0 where
  pub inv : Inv t
  pub id : t.id ≡ s.id
  pub key : t.private_key ≡ s.private_key
  pub configuration : t.configuration ≡ s.configuration
  pub clock : t.local_time ≡ s.local_time
  pub chain : t.blockchain ≡ s.blockchain
  pub round : t.round ≡ s.round
  pub accepted : t.proposal_accepted_for_current_round ≡ s.proposal_accepted_for_current_round

pub IsDeferred-IsStep : (s t u : NodeState) → IsDeferred s t → IsStep t u → IsStep s u
IsDeferred-IsStep s t u d h = record {
  inv = h.inv;
  id = h.id ∙ d.id;
  key = h.key ∙ d.key;
  configuration = h.configuration ∙ d.configuration;
  clock = h.clock ∙ d.clock;
  advance =
      subst
        (λ c.
          ((u.blockchain ≡ c) × (s.round ≤ u.round))
          ⊎ ((b : Block) × (u.blockchain
                ≡ record { proposed_block = none; head = b; older = c.head ∷ c.older })
              × (Chain.height c ≤ b.header.height)
              × (u.round ≡ 0)))
        d.chain
        (subst
          (λ n.
            ((u.blockchain ≡ t.blockchain) × (n ≤ u.round))
            ⊎ ((b : Block) × (u.blockchain ≡ record {
              proposed_block = none;
              head = b;
              older = t.blockchain.head ∷ t.blockchain.older;
            })
                × (Chain.height t.blockchain ≤ b.header.height)
                × (u.round ≡ 0)))
          d.round h.advance);
}

with_counters :
    (s : NodeState) (p c l start : ℕ)
    → Inv s
    → IsDeferred s (record s {
      round_zero_progress_prepares = p;
      round_zero_progress_commits = c;
      round_zero_last_progress_time = l;
      time_last_round_start = start;
    })
with_counters s p c l start v = record {
  inv = record {
    store = record { sorted = v.store.sorted; indexed = v.store.indexed; slice = v.store.slice };
    prepared = v.prepared;
    proposed = v.proposed;
    accepted = v.accepted;
  };
  id = refl;
  key = refl;
  configuration = refl;
  clock = refl;
  chain = refl;
  round = refl;
  accepted = refl;
}

with_start :
    (s t : NodeState) (start : ℕ)
    → IsDeferred s t
    → IsDeferred s (record t { time_last_round_start = start })
with_start s t start d = record {
  inv =
      (with_counters t t.round_zero_progress_prepares t.round_zero_progress_commits
        t.round_zero_last_progress_time start d.inv).inv;
  id = d.id;
  key = d.key;
  configuration = d.configuration;
  clock = d.clock;
  chain = d.chain;
  round = d.round;
  accepted = d.accepted;
}

pub unchanged : (s : NodeState) → Inv s → IsDeferred s s
unchanged s v =
    with_counters s s.round_zero_progress_prepares s.round_zero_progress_commits
      s.round_zero_last_progress_time s.time_last_round_start v

update-IsDeferred :
    (s : NodeState) (prepares commits : ℕ)
    → Inv s
    → IsDeferred s (update_round_zero_progress s prepares commits).0
unfolding update_round_zero_progress
update-IsDeferred s prepares commits v =
    if-holds (λ (r : NodeState × Bool). IsDeferred s r.0)
      (ltb s.round_zero_progress_prepares prepares || ltb s.round_zero_progress_commits commits) _ _
      (with_counters s prepares commits s.local_time _ v) (unchanged s v)

grant_grace-IsDeferred :
    (s : NodeState) (r : NodeState × Bool) → IsDeferred s r.0 → IsDeferred s (grant_grace r).0
unfolding grant_grace
grant_grace-IsDeferred s (t, progressed) d =
    if-holds (λ (r : NodeState × Bool). IsDeferred s r.0)
      (progressed
        || ltb (t.local_time - t.round_zero_last_progress_time) (max t.configuration.block_time 1))
      _ _ (with_start s t _ d) d

pub defer_if-IsDeferred :
    (s : NodeState) (counts : Option (ℕ × ℕ)) → Inv s → IsDeferred s (defer_if s counts).0
unfolding defer_for
defer_if-IsDeferred s none v = unchanged s v
defer_if-IsDeferred s (some (prepares, commits)) v =
    let len = length (Chain.validators s.blockchain) in
    if-holds (λ (r : NodeState × Bool). IsDeferred s r.0)
      (len == 0 || not (leb (f len + 1) prepares || ltb 0 commits)) _ _ (unchanged s v)
      (grant_grace-IsDeferred s _ (update-IsDeferred s prepares commits v))
