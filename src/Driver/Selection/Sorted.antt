-- ===== src/Driver/Selection/Sorted.antt =====
-- What sorting the chosen indices gives, in crates/rbft-node/src/rbft_consensus/on_chain_config.rs.
use rbft.Base.{
  ℕ, suc, ◌<◌, ◌≡◌, refl, ap, ◌∙◌, List, [], ◌∷◌, false, ◌||◌, ◌==◌, ltb, length, contains,
  IsDistinct, AllOf, arith, Bool-cases, inl, inr,
}
use rbft.Driver.Selection.{insert_number, sort_numbers}

abbrev pub Ascends : List ℕ → Type 0
Ascends [] = Unit {0}
Ascends (x ∷ xs) = AllOf (λ y. x < y) xs × Ascends xs

-- Numbers below n, each once.
abbrev pub AreIndices : ℕ → List ℕ → Type 0
AreIndices n xs = AllOf (λ x. x < n) xs × IsDistinct xs

insert-AllOf :
    (P : ℕ → Type 0) (x : ℕ) (xs : List ℕ) → P x → AllOf P xs → AllOf P (insert_number x xs)
unfolding insert_number
insert-AllOf P x [] h w = (h, tt)
insert-AllOf P x (y ∷ ys) h w = elim (Bool-cases (ltb y x)) [
  | inl e ↦ rw e (w.0, insert-AllOf P x ys h w.1)
  | inr e ↦ rw e (h, w)
]

AllOf-above : (x y : ℕ) (ys : List ℕ) → x < y → AllOf (λ z. y < z) ys → AllOf (λ z. x < z) ys
AllOf-above x y [] l w = tt
AllOf-above x y (z ∷ zs) l w = (omega arith, AllOf-above x y zs l w.1)

insert-Ascends :
    (x : ℕ) (xs : List ℕ) → contains xs x ≡ false → Ascends xs → Ascends (insert_number x xs)
unfolding insert_number
insert-Ascends x [] n w = (tt, tt)
insert-Ascends x (y ∷ ys) n w = elim (Bool-cases (ltb y x)) [
  | inl e ↦
      let below : y < x = ground arith in
      rw e (insert-AllOf (λ z. y < z) x ys below w.0, insert-Ascends x ys (ground arith) w.1)
  | inr e ↦ let below : x < y = ground arith in rw e ((below, AllOf-above x y ys below w.0), w)
]

contains-insert :
    (x : ℕ) (xs : List ℕ) (y : ℕ) → contains (insert_number x xs) y ≡ (x == y || contains xs y)
unfolding insert_number
contains-insert x [] y = refl
contains-insert x (z ∷ zs) y = ground (arith, contains-insert x zs y)

contains-sort : (xs : List ℕ) (y : ℕ) → contains (sort_numbers xs) y ≡ contains xs y
unfolding sort_numbers
contains-sort [] y = refl
contains-sort (x ∷ xs) y =
    contains-insert x (sort_numbers xs) y ∙ ap (λ b. x == y || b) (contains-sort xs y)

length-insert : (x : ℕ) (xs : List ℕ) → length (insert_number x xs) ≡ suc (length xs)
unfolding insert_number
length-insert x [] = refl
length-insert x (y ∷ ys) = ground (arith, length-insert x ys)

pub length-sort : (xs : List ℕ) → length (sort_numbers xs) ≡ length xs
unfolding sort_numbers
length-sort [] = refl
length-sort (x ∷ xs) = length-insert x (sort_numbers xs) ∙ ap suc (length-sort xs)

pub sort-Ascends :
    (n : ℕ) (xs : List ℕ)
    → AreIndices n xs
    → Ascends (sort_numbers xs) × AllOf (λ x. x < n) (sort_numbers xs)
unfolding sort_numbers
sort-Ascends n [] w = (tt, tt)
sort-Ascends n (x ∷ xs) (below, new) =
    let (a, b) = sort-Ascends n xs (below.1, new.1) in
    (
      insert-Ascends x (sort_numbers xs) (contains-sort xs x ∙ new.0) a,
      insert-AllOf (λ y. y < n) x (sort_numbers xs) below.0 b,
    )
