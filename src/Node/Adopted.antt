-- ===== src/Node/Adopted.antt =====
-- How a node catches up: `upon_new_block` of crates/rbft/src/node.rs.
use mathlib.Core.List.{Memᴰ, reverse, reverse_aux}
use rbft.Base.{
  ◌≡◌, refl, subst, sym, List, [], ◌∷◌, Option, some, true, ◌⊎◌, inl, inr, arith, ok, find_map,
  find_map-mem, Option-cases,
}
use rbft.Types.{SignedNewBlock, QbftMessage, new_block}
use rbft.Env.{Env}
use rbft.Chain
use rbft.State.{NodeState, new_round, prune_messages_below_height}
use rbft.Seals.{valid_new_block}
use rbft.Node.Normal.{valid_new_block_in, upon_new_block, adopt}

reverse_aux-Memᴰ_right :
    {A : Type 0} (x : A) (xs ys : List A) → Memᴰ x ys → Memᴰ x (reverse_aux xs ys)
reverse_aux-Memᴰ_right x [] ys m = m
reverse_aux-Memᴰ_right x (y ∷ xs) ys m = reverse_aux-Memᴰ_right x xs (y ∷ ys) (Memᴰ.tail m)

reverse_aux-Memᴰ : {A : Type 0} (x : A) (xs ys : List A) → Memᴰ x xs → Memᴰ x (reverse_aux xs ys)
reverse_aux-Memᴰ x [] ys m = elim m [ ]
reverse_aux-Memᴰ x (y ∷ xs) ys (Memᴰ.head e) = reverse_aux-Memᴰ_right x xs (y ∷ ys) (Memᴰ.head e)
reverse_aux-Memᴰ x (y ∷ xs) ys (Memᴰ.tail m) = reverse_aux-Memᴰ x xs (y ∷ ys) m

Memᴰ-reverse_aux :
    {A : Type 0} (x : A) (xs ys : List A) → Memᴰ x (reverse_aux xs ys) → Memᴰ x xs ⊎ Memᴰ x ys
Memᴰ-reverse_aux x [] ys m = inr m
Memᴰ-reverse_aux x (y ∷ xs) ys m = elim (Memᴰ-reverse_aux x xs (y ∷ ys) m) [
  | inl i ↦ inl (Memᴰ.tail i)
  | inr (Memᴰ.head e) ↦ inl (Memᴰ.head e)
  | inr (Memᴰ.tail i) ↦ inr i
]

Memᴰ-reverse : {A : Type 0} (x : A) (xs : List A) → Memᴰ x (reverse xs) → Memᴰ x xs
Memᴰ-reverse x xs m = elim (Memᴰ-reverse_aux x xs [] m) [ inl i ↦ i | inr i ↦ elim i [ ] ]

-- A search with a hit in its list finds something.
find_map-found :
    {A B : Type 0} (f : A → Option B) (x : A) (b : B) (xs : List A)
    → Memᴰ x xs
    → f x ≡ some b
    → (c : B) × (find_map f xs ≡ some c)
find_map-found f x b [] m e = elim m [ ]
find_map-found f x b (y ∷ xs) (Memᴰ.head p) e = (b, rw (find_map, sym p, e) refl)
find_map-found f x b (y ∷ xs) (Memᴰ.tail m) e =
    let (c, found) = find_map-found f x b xs m e in
    elim (Option-cases (f y)) [
      | inl n ↦ (c, rw (find_map, n) found)
      | inr (d, n) ↦ (d, rw (find_map, n) refl)
    ]

module _ ⦃env : Env⦄ where
  -- The node has made a block that it had received, and that is valid, its head, and starts round 0 over
  -- it.
  pub record IsAdopted (s t : NodeState) : Type 0 where
    pub adopted : SignedNewBlock
    pub received : Memᴰ (new_block adopted) s.messages_received
    pub valid : valid_new_block s.blockchain adopted ≡ true
    pub head : t.blockchain.head ≡ adopted.block
    pub older : t.blockchain.older ≡ s.blockchain.head ∷ s.blockchain.older
    pub round : t.round ≡ 0

  valid_new_block_in-valid :
      (s : NodeState) (n : SignedNewBlock)
      → valid_new_block s.blockchain n ≡ true
      → valid_new_block_in s (new_block n) ≡ some n
  unfolding valid_new_block_in
  valid_new_block_in-valid s n v = rw v refl

  valid_new_block_in-message :
      (s : NodeState) (m : QbftMessage) (b : SignedNewBlock)
      → valid_new_block_in s m ≡ some b
      → (m ≡ new_block b) × (valid_new_block s.blockchain b ≡ true)
  unfolding valid_new_block_in
  valid_new_block_in-message s m b e = ground arith

  adopt-fields :
      (s : NodeState) (n : SignedNewBlock)
      → let t = prune_messages_below_height (adopt s n.block) in
        (t.blockchain.head ≡ n.block)
        × (t.blockchain.older ≡ s.blockchain.head ∷ s.blockchain.older)
        × (t.round ≡ 0)
  unfolding adopt new_round prune_messages_below_height Chain.set_head Chain.set_proposed_block
  adopt-fields s n = (refl, refl, refl)

  -- If a valid new block is among the messages stored, of whatever height, `upon_new_block` fires, and
  -- sends nothing: it makes a valid new block among them the head and starts round 0 over it.
  pub upon_new_block-IsAdopted :
      (s : NodeState) (n : SignedNewBlock)
      → Memᴰ (new_block n) s.messages_received
      → valid_new_block s.blockchain n ≡ true
      → (t : NodeState) × (upon_new_block s ≡ ok (t, some [])) × IsAdopted s t
  unfolding upon_new_block
  upon_new_block-IsAdopted s n i v =
      let (b, e) =
        find_map-found (valid_new_block_in s) (new_block n) n (reverse s.messages_received)
          (reverse_aux-Memᴰ (new_block n) s.messages_received [] i)
          (valid_new_block_in-valid s n v) in
      let (m, j, g) = find_map-mem (valid_new_block_in s) (reverse s.messages_received) b e in
      let (same, valid) = valid_new_block_in-message s m b g in
      let (h, o, r) = adopt-fields s b in
      (
        prune_messages_below_height (adopt s b.block),
        rw e refl,
        record {
          adopted = b;
          received =
              Memᴰ-reverse (new_block b) s.messages_received
                (subst (λ x. Memᴰ x (reverse s.messages_received)) same j);
          valid = valid;
          head = h;
          older = o;
          round = r;
        },
      )
