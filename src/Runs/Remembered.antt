-- ===== src/Runs/Remembered.antt =====
-- What a node remembers of the commits that it has sent: they are of earlier rounds, or to the block
-- that it still accepts.
use mathlib.Core.List.{Memᴰ}
use rbft.Base.{
  ℕ, ◌<◌, ◌≡◌, refl, sym, ap, ◌∙◌, ◌⊎◌, inl, inr, List, [], ◌∷◌, ◌++◌, none, some, arith, AllOf,
  AllOf-map, AllOf-mem,
}
use rbft.Types.{Address, PrivateKey, Proposal, SignedCommit}
use rbft.Env.{Env}
use rbft.Chain.{Blockchain}
use rbft.Chain
use rbft.State.{NodeState}
use rbft.Node.{sent}
use rbft.Node.Normal.{Transition}
use rbft.Runs.Steady.{IsLow, Keeps, commits_of, commit_to, Steady}

some-none : {A : Type 0} {x : A} → some x ≡ none → ⊥
some-none e = cc

some-injective : {A : Type 0} {x y : A} → some x ≡ some y → x ≡ y
some-injective e = cc

module _ ⦃env : Env⦄ where
  -- A commit of an earlier height or round, or to the block that is still accepted.
  abbrev Done : PrivateKey → Address → NodeState → SignedCommit → Type 0
  Done k a s c =
      (c.unsigned_payload.height < Chain.height s.blockchain)
      ⊎ ((c.unsigned_payload.height ≡ Chain.height s.blockchain)
          × (c.unsigned_payload.round < s.round))
      ⊎ ((p : Proposal) × (s.proposal_accepted_for_current_round ≡ some p)
          × (c ≡ commit_to k a (Chain.height s.blockchain) s.round p.proposed_block))

  Done-Keeps :
      (k a : ℕ) (s t : NodeState) (c : SignedCommit) → Keeps s t → Done k a s c → Done k a t c
  Done-Keeps k a s t c (inl (inl h)) (inl d) = inl (omega arith)
  Done-Keeps k a s t c (inl (inl h)) (inr (inl d)) = inl (omega (arith, d.0))
  Done-Keeps k a s t c (inl (inl h)) (inr (inr (p, n, e))) = inl (rw e h)
  Done-Keeps k a s t c (inl (inr (g, h))) (inl d) = inl (omega arith)
  Done-Keeps k a s t c (inl (inr (g, h))) (inr (inl d)) =
      inr (inl (d.0 ∙ sym g, omega (arith, d.1)))
  Done-Keeps k a s t c (inl (inr (g, h))) (inr (inr (p, n, e))) = inr (inl (rw e (sym g), rw e h))
  Done-Keeps k a s t c (inr h) (inl d) = inl (omega (arith, h.height))
  Done-Keeps k a s t c (inr h) (inr (inl d)) =
      inr (inl (d.0 ∙ sym h.height, omega (arith, d.1, h.round)))
  Done-Keeps k a s t c (inr h) (inr (inr (p, n, e))) = elim h.accepted [
    | inl none_yet ↦ absurd (some-none (sym n ∙ none_yet))
    | inr still ↦ inr (inr (p, still ∙ n, rw (h.height, h.round) e))
  ]

  -- At most one commit to a height and a round.
  abbrev pub IsSingle : List SignedCommit → Type 0
  IsSingle [] = Unit {0}
  IsSingle (c ∷ cs) =
      AllOf
        (λ d.
          c.unsigned_payload.height ≡ d.unsigned_payload.height
          → c.unsigned_payload.round ≡ d.unsigned_payload.round
          → c ≡ d)
        cs
      × IsSingle cs

  pub IsSingle-same :
      (cs : List SignedCommit)
      → IsSingle cs
      → (x y : SignedCommit) → Memᴰ x cs
      → Memᴰ y cs
      → x.unsigned_payload.height ≡ y.unsigned_payload.height
      → x.unsigned_payload.round ≡ y.unsigned_payload.round
      → x ≡ y
  IsSingle-same [] w x y i j h r = elim i [ ]
  IsSingle-same (c ∷ cs) w x y (Memᴰ.head e) (Memᴰ.head g) h r = e ∙ sym g
  IsSingle-same (c ∷ cs) w x y (Memᴰ.head e) (Memᴰ.tail j) h r =
      e
      ∙ AllOf-mem _ cs y w.0 j (ap (λ z. z.unsigned_payload.height) (sym e) ∙ h)
          (ap (λ z. z.unsigned_payload.round) (sym e) ∙ r)
  IsSingle-same (c ∷ cs) w x y (Memᴰ.tail i) (Memᴰ.head g) h r = sym (
      g
      ∙ AllOf-mem _ cs x w.0 i (ap (λ z. z.unsigned_payload.height) (sym g) ∙ sym h)
          (ap (λ z. z.unsigned_payload.round) (sym g) ∙ sym r))
  IsSingle-same (c ∷ cs) w x y (Memᴰ.tail i) (Memᴰ.tail j) h r = IsSingle-same cs w.1 x y i j h r

  pub record Faithful (k a : ℕ) (s : NodeState) (cs : List SignedCommit) : Type 0 where
    pub done : AllOf (Done k a s) cs
    pub single : IsSingle cs

  -- The commit to the accepted block is the only one of its height and round.
  Done-same :
      (k a : ℕ) (s : NodeState) (p : Proposal) (c : SignedCommit)
      → s.proposal_accepted_for_current_round ≡ some p
      → Done k a s c
      → Chain.height s.blockchain ≡ c.unsigned_payload.height
      → s.round ≡ c.unsigned_payload.round
      → commit_to k a (Chain.height s.blockchain) s.round p.proposed_block ≡ c
  Done-same k a s p c n (inl d) h r = absurd (omega arith)
  Done-same k a s p c n (inr (inl d)) h r = absurd (omega (arith, d.1))
  Done-same k a s p c n (inr (inr (q, m, e))) h r =
      ap (λ x. commit_to k a (Chain.height s.blockchain) s.round x.proposed_block)
        (some-injective (sym n ∙ m))
      ∙ sym e

  pub Keeps-Faithful :
      (k a : ℕ) (s t : NodeState) (cs : List SignedCommit)
      → Keeps s t
      → Faithful k a s cs
      → Faithful k a t cs
  Keeps-Faithful k a s t cs g w = record {
    done = AllOf-map (Done k a s) (Done k a t) cs (λ c. Done-Keeps k a s t c g) w.done;
    single = w.single;
  }

  pub Steady-Faithful :
      (k a : ℕ) (s : NodeState) (r : Transition) (cs : List SignedCommit)
      → IsLow r.0
      → Steady k a s r
      → Faithful k a s cs
      → Faithful k a r.0 (commits_of (sent r.1) ++ cs)
  Steady-Faithful k a s r cs low st w = elim st.commits [
    | inl silent ↦ rw silent (Keeps-Faithful k a s r.0 cs (st.keeps low) w)
    | inr one ↦
        let kept = Keeps-Faithful k a s r.0 cs (st.keeps low) w in
        rw one.sends (record {
          done = (inr (inr (one.block, one.still, rw (one.height, one.round) refl)), kept.done);
          single = (
            AllOf-map (Done k a s) _ cs (λ c. Done-same k a s one.block c one.is_accepted) w.done,
            w.single,
          );
        })
  ]
