-- ===== src/Driver/Selection.antt =====
-- Which validators take part in an epoch: `get_on_chain_config` of
-- crates/rbft-node/src/rbft_consensus/on_chain_config.rs, over the contract's storage.
pub mod Sorted
pub mod Subset
use rbft.Base.{
  ℕ, zero, suc, ◌+◌, ◌-◌, ◌*◌, ◌/◌, ◌%◌, ◌^◌, List, [], ◌∷◌, ◌++◌, Option, none, some, Bool, ◌==◌,
  ltb, leb, min, if◌then◌else◌, length, get_elem?, Exec, ok, panic, ◌>>=◌, expect, filter_map,
}
use rbft.Types.{Address, Hash, Bytes}
use rbft.Env.{Env}

-- `to_be_bytes` of a u64.
abbrev pub u64_bytes : ℕ → Bytes
u64_bytes n =
    (n / 2 ^ 56 % 256)
    ∷ (n / 2 ^ 48 % 256)
    ∷ (n / 2 ^ 40 % 256)
    ∷ (n / 2 ^ 32 % 256)
    ∷ (n / 2 ^ 24 % 256)
    ∷ (n / 2 ^ 16 % 256)
    ∷ (n / 2 ^ 8 % 256)
    ∷ (n % 256)
    ∷ []

-- The first 8 of the 32 bytes of a hash, as a number.
abbrev pub index_seed : Hash → ℕ
index_seed seed = seed / 2 ^ 192 % 2 ^ 64

-- The range from a number on, of a length.
unfoldable pub range_from : ℕ → ℕ → List ℕ
range_from start zero = []
range_from start (suc n) = start ∷ range_from (suc start) n

-- `Vec::remove`, which panics where the index is out of range: the element, and the others.
unfoldable pub remove_at : List ℕ → ℕ → Exec (ℕ × List ℕ)
remove_at [] i = panic
remove_at (x ∷ xs) zero = ok (x, xs)
remove_at (x ∷ xs) (suc i) = remove_at xs i >>= λ r. ok (r.0, x ∷ r.1)

-- `%` panics where there is nothing left.
abbrev pub pick : Hash → List ℕ → Exec (ℕ × List ℕ)
pick seed [] = panic
pick seed (x ∷ xs) = remove_at (x ∷ xs) (index_seed seed % length (x ∷ xs))

-- `sort_unstable` on numbers.
unfoldable pub insert_number : ℕ → List ℕ → List ℕ
insert_number x [] = x ∷ []
insert_number x (y ∷ ys) = let rest = insert_number x ys in if ltb y x then y ∷ rest else x ∷ y ∷ ys

unfoldable pub sort_numbers : List ℕ → List ℕ
sort_numbers [] = []
sort_numbers (x ∷ xs) = insert_number x (sort_numbers xs)

-- `all_validators[i]` for each index.
unfoldable pub extract : List Address → List ℕ → Exec (List Address)
extract vs [] = ok []
extract vs (i ∷ is) = expect (get_elem? vs i) >>= λ v. extract vs is >>= λ rest. ok (v ∷ rest)

module _ ⦃env : Env⦄ where
  abbrev pub next_seed : Hash → ℕ → Hash
  next_seed seed i = env.keccak256 (env.hash_bytes seed ++ u64_bytes i)

  -- The loop, of which so many rounds are left; the seed after the last is not used.
  unfoldable pub select_indices : ℕ → ℕ → List ℕ → Hash → Exec (List ℕ)
  select_indices zero i available seed = ok []
  select_indices (suc left) i available seed = do
    picked ← pick seed available
    rest ← select_indices left (i + 1) picked.1 (next_seed seed i)
    ok (picked.0 ∷ rest)

  -- The validators of an epoch: all, or as many as are allowed, chosen by the epoch's hash.
  unfoldable pub select_validators : Hash → ℕ → List Address → Exec (List Address)
  select_validators epoch_hash max_validators vs =
      if ltb max_validators (length vs)
      then (select_indices max_validators 0 (range_from 0 (length vs)) epoch_hash >>= λ selected.
          extract vs (sort_numbers selected))
      else ok vs
