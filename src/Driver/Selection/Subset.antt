-- ===== src/Driver/Selection/Subset.antt =====
-- The validators chosen are some of the contract's, in their order.
use rbft.Base.{
  ℕ, zero, suc, ◌+◌, ◌≤◌, ◌<◌, ◌≡◌, refl, sym, ap, List, [], ◌∷◌, some, false, ◌==◌, drop, subst,
  ltb, min, length, get_elem?, Gives, contains, AllOf, arith, Bool-cases, inl, inr, ◌%◌,
}
use native.Mathlib.Nat.{mod-lt}
use rbft.Types.{Address, Hash}
use rbft.Env.{Env}
use rbft.Driver.Selection.{
  range_from, remove_at, pick, sort_numbers, extract, index_seed, next_seed, select_indices,
  select_validators,
}
use rbft.Driver.Selection.Sorted.{Ascends, AreIndices, length-sort, sort-Ascends}

-- The first list without some of its elements, the others in their order.
pub data IsSublist : List ℕ → List ℕ → Type 0 where
  done : {ys : List ℕ} → IsSublist [] ys
  keep : {x : ℕ} {xs ys : List ℕ} → IsSublist xs ys → IsSublist (x ∷ xs) (x ∷ ys)
  skip : {y : ℕ} {xs ys : List ℕ} → IsSublist xs ys → IsSublist xs (y ∷ ys)

whole : (xs : List ℕ) → IsSublist xs xs
whole [] = done
whole (x ∷ xs) = keep (whole xs)

get_elem-some : (vs : List ℕ) (i : ℕ) → i < length vs → (v : ℕ) × (get_elem? vs i ≡ some v)
get_elem-some [] i l = absurd (omega arith)
get_elem-some (v ∷ vs) zero l = (v, refl)
get_elem-some (v ∷ vs) (suc i) l = get_elem-some vs i (omega arith)

-- The element at an index, before some that come later.
prepend :
    (vs : List ℕ) (low i v : ℕ) (xs : List ℕ)
    → low ≤ i
    → get_elem? vs i ≡ some v
    → IsSublist xs (drop (suc i) vs)
    → IsSublist (v ∷ xs) (drop low vs)
prepend [] low i v xs l e s = cc
prepend (w ∷ vs) zero zero v xs l e s =
    let same : w ≡ v = cc in subst (λ x. IsSublist (v ∷ xs) (x ∷ vs)) (sym same) (keep s)
prepend (w ∷ vs) zero (suc i) v xs l e s = skip (prepend vs zero i v xs (omega arith) e s)
prepend (w ∷ vs) (suc low) zero v xs l e s = absurd (omega arith)
prepend (w ∷ vs) (suc low) (suc i) v xs l e s = prepend vs low i v xs (omega arith) e s

all_from_zero : (xs : List ℕ) → AllOf (λ x. 0 ≤ x) xs
all_from_zero [] = tt
all_from_zero (x ∷ xs) = (omega arith, all_from_zero xs)

AllOf-from : (i : ℕ) (xs : List ℕ) → AllOf (λ x. i < x) xs → AllOf (λ x. suc i ≤ x) xs
AllOf-from i [] w = tt
AllOf-from i (x ∷ xs) w = (omega arith, AllOf-from i xs w.1)

extract-IsSublist :
    (vs : List ℕ) (low : ℕ) (is : List ℕ)
    → AllOf (λ i. low ≤ i) is
    → AllOf (λ i. i < length vs) is
    → Ascends is
    → Gives (extract vs is) (λ r. (length r ≡ length is) × IsSublist r (drop low vs))
unfolding extract
extract-IsSublist vs low [] above below w = ([], refl, (refl, done))
extract-IsSublist vs low (i ∷ is) above below w =
    let (v, e) = get_elem-some vs i below.0 in
    let (r, f, (l, s)) = extract-IsSublist vs (suc i) is (AllOf-from i is w.0) below.1 w.1 in
    rw (e, f) (v ∷ r, refl, (ap suc l, prepend vs low i v r above.0 e s))

-- What is taken out of some numbers below n, each once, and what is left.
abbrev IsRemoval : ℕ → List ℕ → ℕ × List ℕ → Type 0
IsRemoval n xs r =
    (suc (length r.1) ≡ length xs)
    × (r.0 < n)
    × AreIndices n r.1
    × (contains r.1 r.0 ≡ false)
    × ((y : ℕ) → contains xs y ≡ false → (contains r.1 y ≡ false) × ((r.0 == y) ≡ false))

remove_at-IsRemoval :
    (n : ℕ) (xs : List ℕ) (i : ℕ)
    → i < length xs
    → AreIndices n xs
    → Gives (remove_at xs i) (IsRemoval n xs)
unfolding remove_at
remove_at-IsRemoval n [] i l w = absurd (omega arith)
remove_at-IsRemoval n (x ∷ xs) zero l (below, new) =
    ((x, xs), refl, (refl, below.0, (below.1, new.1), new.0, λ y h. (ground arith, ground arith)))
remove_at-IsRemoval n (x ∷ xs) (suc i) l (below, new) =
    let ((z, zs), e, (len, low, w, gone, others)) =
      remove_at-IsRemoval n xs i (omega arith) (below.1, new.1) in
    let (apart, other) = others x new.0 in
    rw e (
      (z, x ∷ zs),
      refl,
      (
        ap suc len,
        low,
        ((below.0, w.0), (apart, w.1)),
        ground (arith, gone, other),
        λ y h. ground (arith, others y),
      ),
    )

pick-IsRemoval :
    (n : ℕ) (seed : Hash) (xs : List ℕ)
    → 0 < length xs
    → AreIndices n xs
    → Gives (pick seed xs) (IsRemoval n xs)
pick-IsRemoval n seed [] l w = absurd (omega arith)
pick-IsRemoval n seed (x ∷ xs) l w =
    remove_at-IsRemoval n (x ∷ xs) (index_seed seed % length (x ∷ xs)) (mod-lt (index_seed seed) l)
      w

range-contains : (start n y : ℕ) → y < start → contains (range_from start n) y ≡ false
unfolding range_from
range-contains start zero y l = refl
range-contains start (suc n) y l =
    let rest = range-contains (suc start) n y (omega arith) in ground (arith, rest)

range-AreIndices : (start len n : ℕ) → start + len ≤ n → AreIndices n (range_from start len)
unfolding range_from
range-AreIndices start zero n l = (tt, tt)
range-AreIndices start (suc len) n l =
    let w = range-AreIndices (suc start) len n (omega arith) in
    ((omega arith, w.0), (range-contains (suc start) len start (omega arith), w.1))

range-length : (start n : ℕ) → length (range_from start n) ≡ n
unfolding range_from
range-length start zero = refl
range-length start (suc n) = ap suc (range-length (suc start) n)

module _ ⦃env : Env⦄ where
  select_indices-AreIndices :
      (n left i : ℕ) (available : List ℕ) (seed : Hash)
      → left ≤ length available
      → AreIndices n available
      → Gives (select_indices left i available seed) (λ r.
        (length r ≡ left)
        × AreIndices n r
        × ((y : ℕ) → contains available y ≡ false → contains r y ≡ false))
  unfolding select_indices
  select_indices-AreIndices n zero i available seed l w = ([], refl, (refl, (tt, tt), λ y h. refl))
  select_indices-AreIndices n (suc left) i available seed l w =
      let ((x, rest), e, (len, low, u, gone, others)) =
        pick-IsRemoval n seed available (omega arith) w in
      let (r, f, (count, v, apart)) =
        select_indices-AreIndices n left (i + 1) rest (next_seed seed i) (omega arith) u in
      rw (e, f)
        (
          x ∷ r,
          refl,
          (
            ap suc count,
            ((low, v.0), (apart x gone, v.1)),
            λ y h. let (a, b) = others y h in ground (arith, apart y a, b),
          ),
        )

  -- The selection never panics: it gives all validators where there are no more than allowed, and
  -- otherwise as many as are allowed, which stand in the list of all in the same order, each position
  -- taken at most once.
  pub select_validators-IsSublist :
      (epoch_hash : Hash) (max_validators : ℕ) (vs : List Address)
      → Gives
          (select_validators epoch_hash max_validators vs)
          (λ r. (length r ≡ min max_validators (length vs)) × IsSublist r vs)
  unfolding select_validators
  select_validators-IsSublist seed most vs = elim (Bool-cases (ltb most (length vs))) [
    | inr few ↦ rw few (vs, refl, (ground arith, whole vs))
    | inl many ↦
        let n = length vs in
        let (is, e, (count, w, a)) =
          select_indices-AreIndices n most 0 (range_from 0 n) seed
            (ground (arith, range-length 0 n)) (range-AreIndices 0 n n (omega arith)) in
        let (up, below) = sort-Ascends n is w in
        let (r, f, (len, s)) =
          extract-IsSublist vs 0 (sort_numbers is) (all_from_zero (sort_numbers is)) below up in
        rw (many, e, f) (r, refl, (ground (arith, len, length-sort is, count), s))
  ]
