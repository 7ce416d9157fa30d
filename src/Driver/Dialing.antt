-- ===== src/Driver/Dialing.antt =====
-- Which peers a node connects to: `check_peer_connections` and the connection audit of the run loop of
-- crates/rbft-node/src/rbft_consensus.rs.
use rbft.Base.{
  ℕ, suc, ◌≡◌, refl, List, [], ◌∷◌, Option, none, some, Bool, true, false, ◌&&◌, not, ◌==◌,
  if◌then◌else◌, contains, keep, drop, position, arith, IsDistinct, Bool-cases, inl, inr,
  Option-cases, ap, ◌∙◌, sym,
}

abbrev after_index : Option ℕ → ℕ
after_index none = 0
after_index (some i) = suc i

-- Where the loop over the validators' nodes starts: after this node, or at 0 if it is none of them.
unfoldable pub start_node : ℕ → List ℕ → ℕ
start_node local_peer enodes = after_index (position enodes local_peer)

-- The peers that `check_peer_connections` has the network connect to.
unfoldable pub peers_to_dial : List ℕ → ℕ → List ℕ → List ℕ
peers_to_dial connected local_peer enodes =
    keep (λ p. not (contains connected p)) (drop (start_node local_peer enodes) enodes)

-- The peers that the audit disconnects and connects again: those of the network, but this node, with no
-- connection of the protocol.
unfoldable pub missing_peers : List ℕ → ℕ → List ℕ → List ℕ
missing_peers qbft_connections local_peer all_peers =
    keep (λ p. not (p == local_peer) && not (contains qbft_connections p)) all_peers

-- The nodes after one.
later : ℕ → List ℕ → List ℕ
later a [] = []
later a (p ∷ ps) = let rest = later a ps in if p == a then ps else rest

position-none : (ps : List ℕ) (a : ℕ) → position ps a ≡ none → contains ps a ≡ false
position-none [] a e = refl
position-none (p ∷ ps) a e = elim (Option-cases (position ps a)) [
  | inl n ↦ ground (arith, position-none ps a n)
  | inr (i, n) ↦ ground arith
]

drop-later :
    (a : ℕ) (ps : List ℕ)
    → contains ps a ≡ true
    → drop (after_index (position ps a)) ps ≡ later a ps
unfolding later
drop-later a [] h = refl
drop-later a (p ∷ ps) h = elim (Bool-cases (p == a)) [
  | inl e ↦ rw e refl
  | inr e ↦
      let there : contains ps a ≡ true = ground arith in
      elim (Option-cases (position ps a)) [
        | inl n ↦ let gone = position-none ps a n in absurd cc
        | inr (i, n) ↦ let rest = drop-later a ps there in rw (e, n) (rw n at rest)
      ]
]

contains-keep :
    (f : ℕ → Bool) (ps : List ℕ) (b : ℕ) → f b ≡ true → contains (keep f ps) b ≡ contains ps b
contains-keep f [] b h = refl
contains-keep f (p ∷ ps) b h = elim (Bool-cases (p == b)) [
  | inl e ↦
      let same : p ≡ b = ground arith in let kept : f p ≡ true = ap f same ∙ h in rw (kept, e) refl
  | inr e ↦ ground (arith, contains-keep f ps b h)
]

contains-later : (a b : ℕ) (ps : List ℕ) → contains ps b ≡ false → contains (later a ps) b ≡ false
unfolding later
contains-later a b [] h = refl
contains-later a b (p ∷ ps) h = ground (arith, contains-later a b ps)

-- One of the two comes after the other.
later-one_side :
    (a b : ℕ) (ps : List ℕ)
    → (a == b) ≡ false
    → IsDistinct ps
    → contains ps a ≡ true
    → contains ps b ≡ true
    → not (contains (later a ps) b) ≡ contains (later b ps) a
unfolding later
later-one_side a b [] n d ha hb = cc
later-one_side a b (p ∷ ps) n d ha hb = elim (Bool-cases (p == a)) [
  | inl e ↦
      let same : p ≡ a = ground arith in
      let gone : contains ps a ≡ false = ap (contains ps) (sym same) ∙ d.0 in
      ground (arith, contains-later b a ps gone)
  | inr e ↦ elim (Bool-cases (p == b)) [
    | inl g ↦
        let same : p ≡ b = ground arith in
        let gone : contains ps b ≡ false = ap (contains ps) (sym same) ∙ d.0 in
        ground (arith, contains-later a b ps gone)
    | inr g ↦
        let there_a : contains ps a ≡ true = ground arith in
        let there_b : contains ps b ≡ true = ground arith in
        rw (e, g) (later-one_side a b ps n d.1 there_a there_b)
  ]
]

dial-later :
    (connected : List ℕ) (a b : ℕ) (ps : List ℕ)
    → contains ps a ≡ true
    → contains connected b ≡ false
    → contains (peers_to_dial connected a ps) b ≡ contains (later a ps) b
unfolding peers_to_dial start_node
dial-later connected a b ps h free =
    ap (λ qs. contains (keep (λ p. not (contains connected p)) qs) b) (drop-later a ps h)
    ∙ contains-keep (λ p. not (contains connected p)) (later a ps) b (ap not free)

-- Of two validators in a list of distinct nodes, neither of which is connected to the other, exactly one
-- has the network connect to the other.
pub dial-one_side :
    (connected_a connected_b : List ℕ) (a b : ℕ) (enodes : List ℕ)
    → IsDistinct enodes
    → (a == b) ≡ false
    → contains enodes a ≡ true
    → contains enodes b ≡ true
    → contains connected_a b ≡ false
    → contains connected_b a ≡ false
    → not (contains (peers_to_dial connected_a a enodes) b)
      ≡ contains (peers_to_dial connected_b b enodes) a
dial-one_side ca cb a b enodes d n ha hb free_a free_b =
    ap not (dial-later ca a b enodes ha free_a)
    ∙ later-one_side a b enodes n d ha hb
    ∙ sym (dial-later cb b a enodes hb free_b)
