-- ===== src/Seals/Safety.antt =====
-- What the seals of adopted blocks prove about their signers.
use rbft.Base.{
  ℕ, ◌^◌, ◌≤◌, ◌<◌, ◌≡◌, List, [], ◌∷◌, Bool, true, ◌&&◌, ◌==◌, arith, all, any, contains, distinct,
  length, IsDistinct, IsWithin, common, contains-distinct, distinct-IsDistinct, distinct-IsWithin,
  common-IsDistinct, common-IsWithin,
}
use rbft.Types.{Address, Hash, Signature, SignedNewBlock}
use rbft.Env.{Env, verify_message}
use rbft.Chain.{Blockchain}
use rbft.Chain
use rbft.Quorum.{f, quorum}
use rbft.Quorum.Bounds.{quorum-common}
use rbft.Sign.{hash_block_for_commit_seal}
use rbft.State.{unwrap_or_false}
use rbft.Seals.{seal_authors, seal_ok, valid_new_block}

abbrev pub sealers : SignedNewBlock → List Address
sealers b = distinct (seal_authors b.block.header.commit_seals)

-- Distinct members of `ys` that stand in `xs` too.
common-IsWithin_right : (xs ys zs : List ℕ) → IsWithin zs ys → IsWithin zs (common xs ys)
common-IsWithin_right xs [] zs w = tt
common-IsWithin_right xs (y ∷ ys) zs w = ground (arith, common-IsWithin_right xs ys zs w.1)

IsWithin-self :
    (ys zs : List ℕ) → ((a : ℕ) → contains ys a ≡ true → contains zs a ≡ true) → IsWithin zs ys
IsWithin-self [] zs h = tt
IsWithin-self (y ∷ ys) zs h = (h y (ground arith), IsWithin-self ys zs (λ a m. h a (ground arith)))

module _ ⦃env : Env⦄ where
  -- Some seal of the list is by this author and verifies against the hash.
  unfoldable pub has_sealed : List Signature → Hash → Address → Bool
  has_sealed seals hash a =
      any (λ s. s.author == a && unwrap_or_false (verify_message s (env.hash_bytes hash))) seals

  seals-IsWithin :
      (vs : List Address) (hash : Hash) (seals : List Signature)
      → all (seal_ok vs hash) seals ≡ true
      → IsWithin vs (seal_authors seals)
  unfolding seal_ok
  seals-IsWithin vs hash [] h = tt
  seals-IsWithin vs hash (s ∷ seals) h = ground (arith, seals-IsWithin vs hash seals)

  seals-has_sealed :
      (vs : List Address) (hash : Hash) (seals : List Signature) (a : Address)
      → all (seal_ok vs hash) seals ≡ true
      → contains (seal_authors seals) a ≡ true
      → has_sealed seals hash a ≡ true
  unfolding seal_ok has_sealed
  seals-has_sealed vs hash [] a h m = ground arith
  seals-has_sealed vs hash (s ∷ seals) a h m = ground (arith, seals-has_sealed vs hash seals a)

  all-has_sealed :
      (vs : List Address) (hash : Hash) (seals : List Signature) (xs : List Address)
      → all (seal_ok vs hash) seals ≡ true
      → IsWithin (distinct (seal_authors seals)) xs
      → all (has_sealed seals hash) xs ≡ true
  all-has_sealed vs hash seals [] h w = ground arith
  all-has_sealed vs hash seals (x ∷ xs) h w = ground (
    arith,
    seals-has_sealed vs hash seals x,
    contains-distinct (seal_authors seals) x,
    all-has_sealed vs hash seals xs,
  )

  -- What `valid_new_block` has checked.
  pub record IsSealed (bc : Blockchain) (b : SignedNewBlock) : Type 0 where
    pub at_height : Chain.height bc ≤ b.block.header.height
    pub enough : quorum (length (Chain.validators bc)) ≤ length (sealers b)
    pub verified :
        all
          (seal_ok (Chain.validators bc) (hash_block_for_commit_seal b.block))
          b.block.header.commit_seals
        ≡ true

  pub valid_new_block-IsSealed :
      (bc : Blockchain) (b : SignedNewBlock) → valid_new_block bc b ≡ true → IsSealed bc b
  unfolding valid_new_block
  valid_new_block-IsSealed bc b h = ground arith

  -- If a node accepts two blocks on one chain (1 to 2^62 - 1 validators), then the common seal authors
  -- are distinct validators, more than f of them, each with a verified seal on both blocks.
  pub valid_new_block-common-sealers :
      (bc : Blockchain) (a b : SignedNewBlock)
      → 0 < length (Chain.validators bc)
      → length (Chain.validators bc) < 2 ^ 62
      → valid_new_block bc a ≡ true
      → valid_new_block bc b ≡ true
      → let both = common (sealers a) (sealers b) in
        IsDistinct both
        × IsWithin (Chain.validators bc) both
        × (f (length (Chain.validators bc)) < length both)
        × (all (has_sealed a.block.header.commit_seals (hash_block_for_commit_seal a.block)) both
            ≡ true)
        × (all (has_sealed b.block.header.commit_seals (hash_block_for_commit_seal b.block)) both
            ≡ true)
  valid_new_block-common-sealers bc a b pos small va vb =
      let vs = Chain.validators bc in
      let sa = valid_new_block-IsSealed bc a va in
      let sb = valid_new_block-IsSealed bc b vb in
      let wa = distinct-IsWithin vs _ (seals-IsWithin vs _ _ sa.verified) in
      let wb = distinct-IsWithin vs _ (seals-IsWithin vs _ _ sb.verified) in
      let db = distinct-IsDistinct (seal_authors b.block.header.commit_seals) in
      (
        common-IsDistinct (sealers a) (sealers b) db,
        common-IsWithin_right (sealers a) (sealers b) vs wb,
        quorum-common vs (sealers a) (sealers b) pos small
            (distinct-IsDistinct (seal_authors a.block.header.commit_seals)) wa db wb sa.enough
            sb.enough,
        all-has_sealed vs _ _ _ sa.verified (common-IsWithin (sealers a) (sealers b)),
        all-has_sealed vs _ _ _ sb.verified (
            common-IsWithin_right (sealers a) (sealers b) (sealers b)
              (IsWithin-self (sealers b) (sealers b) (λ x m. m))),
      )
