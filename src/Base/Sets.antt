-- ===== src/Base/Sets.antt =====
-- Lists of numbers as sets: the facts on counting that the voting rules rest on.
use Prim.Native.Nat.{ℕ, suc, ◌+◌, ◌≤◌, ◌<◌}
use mathlib.Core.Path.{◌≡◌, refl, subst}
use mathlib.Core.Logic.{◌⊎◌, inl, inr}
use mathlib.Core.Bool.{Bool, true, false, ◌||◌, not}
use mathlib.Core.List.{List, [], ◌∷◌, ◌++◌}
use native.Mathlib.Omega.{arith}
use rbft.Base.Tests.{◌==◌, ==→eq, Bool-cases, if◌then◌else◌}
use rbft.Base.Lists.{length, all, contains, distinct, keep, length-append}

abbrev pub IsDistinct : List ℕ → Type 0
IsDistinct [] = Unit {0}
IsDistinct (x ∷ xs) = (contains xs x ≡ false) × IsDistinct xs

-- Every element stands in `vs`.
abbrev pub IsWithin : List ℕ → List ℕ → Type 0
IsWithin vs [] = Unit {0}
IsWithin vs (x ∷ xs) = (contains vs x ≡ true) × IsWithin vs xs

pub contains-distinct : (xs : List ℕ) (a : ℕ) → contains (distinct xs) a ≡ contains xs a
contains-distinct [] a = refl
contains-distinct (x ∷ xs) a = ground (arith, contains-distinct xs a, contains-distinct xs x)

pub distinct-IsDistinct : (xs : List ℕ) → IsDistinct (distinct xs)
distinct-IsDistinct [] = tt
distinct-IsDistinct (x ∷ xs) = ground (arith, distinct-IsDistinct xs)

pub IsWithin-contains :
    (vs xs : List ℕ) (a : ℕ) → IsWithin vs xs → contains xs a ≡ true → contains vs a ≡ true
IsWithin-contains vs [] a w h = ground arith
IsWithin-contains vs (x ∷ xs) a w h = ground (arith, IsWithin-contains vs xs a w.1)

pub distinct-IsWithin : (vs xs : List ℕ) → IsWithin vs xs → IsWithin vs (distinct xs)
distinct-IsWithin vs [] w = tt
distinct-IsWithin vs (x ∷ xs) w = ground (arith, distinct-IsWithin vs xs w.1)

-- `vs` without the first a.
remove_one : ℕ → List ℕ → List ℕ
remove_one a [] = []
remove_one a (v ∷ vs) = if v == a then vs else v ∷ remove_one a vs

length-remove_one :
    (a : ℕ) (vs : List ℕ) → contains vs a ≡ true → length vs ≡ suc (length (remove_one a vs))
unfolding remove_one
length-remove_one a [] h = ground arith
length-remove_one a (v ∷ vs) h = ground (arith, length-remove_one a vs)

contains-remove_one :
    (a b : ℕ) (vs : List ℕ)
    → (b == a) ≡ false
    → contains vs b ≡ true
    → contains (remove_one a vs) b ≡ true
unfolding remove_one
contains-remove_one a b [] d h = h
contains-remove_one a b (v ∷ vs) d h = ground (arith, contains-remove_one a b vs d)

remove_one-IsWithin :
    (a : ℕ) (vs xs : List ℕ)
    → contains xs a ≡ false
    → IsWithin vs xs
    → IsWithin (remove_one a vs) xs
remove_one-IsWithin a vs [] d w = tt
remove_one-IsWithin a vs (x ∷ xs) d w =
    ground (arith, contains-remove_one a x vs, remove_one-IsWithin a vs xs)

-- Distinct elements of a list are no more than its length.
pub length-le_of_IsWithin :
    (vs xs : List ℕ) → IsDistinct xs → IsWithin vs xs → length xs ≤ length vs
length-le_of_IsWithin vs [] d w = omega arith
length-le_of_IsWithin vs (x ∷ xs) d w = omega (
  arith,
  length-remove_one x vs w.0,
  length-le_of_IsWithin (remove_one x vs) xs d.1 (remove_one-IsWithin x vs xs d.0 w.1),
)

abbrev pub common : List ℕ → List ℕ → List ℕ
common xs ys = keep (contains xs) ys

abbrev only : List ℕ → List ℕ → List ℕ
only xs ys = keep (λ y. not (contains xs y)) ys

length-common-only : (xs ys : List ℕ) → length ys ≡ length (common xs ys) + length (only xs ys)
length-common-only xs [] = omega arith
length-common-only xs (y ∷ ys) = ground (arith, length-common-only xs ys)

contains-append :
    (xs ys : List ℕ) (a : ℕ) → contains (xs ++ ys) a ≡ (contains xs a || contains ys a)
contains-append [] ys a = refl
contains-append (x ∷ xs) ys a = ground (arith, contains-append xs ys a)

contains-keep-false :
    (p : ℕ → Bool) (ys : List ℕ) (a : ℕ) → contains ys a ≡ false → contains (keep p ys) a ≡ false
contains-keep-false p [] a h = refl
contains-keep-false p (y ∷ ys) a h = ground (arith, contains-keep-false p ys a)

pub keep-IsDistinct : (p : ℕ → Bool) (ys : List ℕ) → IsDistinct ys → IsDistinct (keep p ys)
keep-IsDistinct p [] d = tt
keep-IsDistinct p (y ∷ ys) d =
    ground (arith, keep-IsDistinct p ys d.1, contains-keep-false p ys y d.0)

keep-IsWithin :
    (vs : List ℕ) (p : ℕ → Bool) (ys : List ℕ) → IsWithin vs ys → IsWithin vs (keep p ys)
keep-IsWithin vs p [] w = tt
keep-IsWithin vs p (y ∷ ys) w = ground (arith, keep-IsWithin vs p ys w.1)

-- No element of `xs` stands in `ys`.
abbrev IsApart : List ℕ → List ℕ → Type 0
IsApart ys [] = Unit {0}
IsApart ys (x ∷ xs) = (contains ys x ≡ false) × IsApart ys xs

only-IsApart : (xs ys : List ℕ) → IsApart xs (only xs ys)
only-IsApart xs [] = tt
only-IsApart xs (y ∷ ys) = ground (arith, only-IsApart xs ys)

append-IsDistinct :
    (xs ys : List ℕ) → IsDistinct xs → IsDistinct ys → IsApart ys xs → IsDistinct (xs ++ ys)
append-IsDistinct [] ys d e a = e
append-IsDistinct (x ∷ xs) ys d e a =
    ground (arith, contains-append xs ys x, append-IsDistinct xs ys d.1 e a.1)

append-IsWithin : (vs xs ys : List ℕ) → IsWithin vs xs → IsWithin vs ys → IsWithin vs (xs ++ ys)
append-IsWithin vs [] ys w v = v
append-IsWithin vs (x ∷ xs) ys w v = (w.0, append-IsWithin vs xs ys w.1 v)

-- Two sets within a third overlap in what they hold beyond its size.
pub length-common :
    (vs xs ys : List ℕ)
    → IsDistinct xs
    → IsWithin vs xs
    → IsDistinct ys
    → IsWithin vs ys
    → length xs + length ys ≤ length vs + length (common xs ys)
length-common vs xs ys dx wx dy wy = omega (
  arith,
  length-common-only xs ys,
  length-append (only xs ys) xs,
  length-le_of_IsWithin vs (only xs ys ++ xs)
      (append-IsDistinct (only xs ys) xs (keep-IsDistinct _ ys dy) dx (only-IsApart xs ys))
      (append-IsWithin vs (only xs ys) xs (keep-IsWithin vs _ ys wy) wx),
)

pub common-IsDistinct : (xs ys : List ℕ) → IsDistinct ys → IsDistinct (common xs ys)
common-IsDistinct xs ys d = keep-IsDistinct (contains xs) ys d

-- What stands in both lists is within each.
pub common-IsWithin : (xs ys : List ℕ) → IsWithin xs (common xs ys)
common-IsWithin xs [] = tt
common-IsWithin xs (y ∷ ys) = ground (arith, common-IsWithin xs ys)

IsWithin-or_outside :
    (vs xs : List ℕ) → IsWithin vs xs ⊎ ((x : ℕ) × (contains xs x ≡ true) × (contains vs x ≡ false))
IsWithin-or_outside vs [] = inl tt
IsWithin-or_outside vs (x ∷ xs) = elim (Bool-cases (contains vs x)) [
  | inr e ↦ inr (x, ground arith, e)
  | inl e ↦ elim (IsWithin-or_outside vs xs) [
    | inl w ↦ inl (e, w)
    | inr (y, m, o) ↦ inr (y, ground arith, o)
  ]
]

-- More distinct numbers than `vs` has: one of them is not in it.
pub outside :
    (vs xs : List ℕ)
    → IsDistinct xs
    → length vs < length xs
    → (x : ℕ) × (contains xs x ≡ true) × (contains vs x ≡ false)
outside vs xs d l = elim (IsWithin-or_outside vs xs) [
  | inl w ↦ absurd (omega (arith, length-le_of_IsWithin vs xs d w))
  | inr found ↦ found
]

pub all-contains :
    (p : ℕ → Bool) (xs : List ℕ) (x : ℕ) → all p xs ≡ true → contains xs x ≡ true → p x ≡ true
all-contains p [] x h m = ground arith
all-contains p (y ∷ ys) x h m = elim (Bool-cases (y == x)) [
  | inl e ↦ subst (λ n. p n ≡ true) (==→eq y x e) (ground arith)
  | inr e ↦ all-contains p ys x (ground arith) (ground arith)
]
