-- ===== src/BlockOrder.antt =====
-- `Ord` of blocks (crates/rbft/src/types.rs and types/signature.rs), and `sort` and `dedup` by it.
-- The derived orders compare the fields in turn, and lists lexicographically.
use rbft.Base.{List, [], ◌∷◌, Bool, true, false, compare, Ordering}
use rbft.Types.{Signature, BlockHeader, Block}

-- `Ordering::then`.
abbrev and_next : Ordering → Ordering → Ordering
and_next Ordering.lt rest = Ordering.lt
and_next Ordering.eq rest = rest
and_next Ordering.gt rest = Ordering.gt

cmp_list {ℓ} : {A : Type ℓ} → (A → A → Ordering) → List A → List A → Ordering
cmp_list c [] [] = Ordering.eq
cmp_list c [] (y ∷ ys) = Ordering.lt
cmp_list c (x ∷ xs) [] = Ordering.gt
cmp_list c (x ∷ xs) (y ∷ ys) = and_next (c x y) (cmp_list c xs ys)

cmp_signature : Signature → Signature → Ordering
cmp_signature a b = and_next (compare a.author b.author) (compare a.signature b.signature)

cmp_header : BlockHeader → BlockHeader → Ordering
unfolding cmp_list cmp_signature
cmp_header a b = and_next (compare a.proposer b.proposer) (
    and_next (compare a.round_number b.round_number) (
      and_next (cmp_list cmp_signature a.commit_seals b.commit_seals) (
        and_next (compare a.height b.height) (
          and_next (compare a.timestamp b.timestamp)
            (and_next (cmp_list compare a.validators b.validators) (compare a.digest b.digest))))))

unfoldable pub cmp : Block → Block → Ordering
unfolding cmp_header
cmp a b = and_next (cmp_header a.header b.header) (
    and_next (cmp_list compare a.body b.body)
      (cmp_list (cmp_list compare) a.transactions b.transactions))

abbrev after : Block → Block → Bool
after a b = elim (cmp a b) [ Ordering.gt ↦ true | _ ↦ false ]

-- A stable sort, by insertion.
insert_block : Block → List Block → List Block
insert_block b [] = b ∷ []
insert_block b (x ∷ xs) = elim (after b x) [ true ↦ x ∷ insert_block b xs | false ↦ b ∷ x ∷ xs ]

unfoldable pub sort : List Block → List Block
unfolding insert_block cmp
sort [] = []
sort (b ∷ bs) = insert_block b (sort bs)

abbrev same_block : Block → Block → Bool
same_block a b = elim (cmp a b) [ Ordering.eq ↦ true | _ ↦ false ]

-- Drops each block that equals the one before it.
dedup_from : Block → List Block → List Block
dedup_from prev [] = []
dedup_from prev (b ∷ bs) = elim (same_block prev b) [
  | true ↦ dedup_from prev bs
  | false ↦ b ∷ dedup_from b bs
]

unfoldable pub dedup : List Block → List Block
unfolding dedup_from cmp
dedup [] = []
dedup (b ∷ bs) = b ∷ dedup_from b bs
