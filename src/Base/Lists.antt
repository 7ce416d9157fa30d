-- ===== src/Base/Lists.antt =====
-- Lists measured by native numbers, and the set-like views of a list that the source uses.
use Prim.Native.Nat.{ℕ, zero, suc, ◌+◌}
use mathlib.Core.Path.{◌≡◌, refl, sym, subst}
use mathlib.Core.Logic.{inl, inr}
use mathlib.Core.Bool.{Bool, true, false, ◌&&◌, ◌||◌}
use mathlib.Core.List.{List, [], ◌∷◌, ◌++◌, Memᴰ}
use mathlib.Core.Option.{Option, none, some}
use native.Mathlib.Omega.{arith}
use rbft.Base.Tests.{◌==◌, if◌then◌else◌, Option-cases}

module _ {ℓ} {A : Type ℓ} where
  abbrev pub length : List A → ℕ
  length [] = 0
  length (x ∷ xs) = suc (length xs)

  abbrev pub is_empty : List A → Bool
  is_empty [] = true
  is_empty (x ∷ xs) = false

  abbrev pub get_elem? : List A → ℕ → Option A
  get_elem? [] i = none
  get_elem? (x ∷ xs) zero = some x
  get_elem? (x ∷ xs) (suc i) = get_elem? xs i

  abbrev pub get_or : List A → ℕ → A → A
  get_or [] i d = d
  get_or (x ∷ xs) zero d = x
  get_or (x ∷ xs) (suc i) d = get_or xs i d

  abbrev pub take : ℕ → List A → List A
  take zero xs = []
  take (suc n) [] = []
  take (suc n) (x ∷ xs) = x ∷ take n xs

  abbrev pub drop : ℕ → List A → List A
  drop zero xs = xs
  drop (suc n) [] = []
  drop (suc n) (x ∷ xs) = drop n xs

  -- `Iterator::filter`, `all`, `any` with Boolean tests.
  abbrev pub keep : (A → Bool) → List A → List A
  keep p [] = []
  keep p (x ∷ xs) = if p x then x ∷ keep p xs else keep p xs

  abbrev pub all : (A → Bool) → List A → Bool
  all p [] = true
  all p (x ∷ xs) = p x && all p xs

  abbrev pub any : (A → Bool) → List A → Bool
  any p [] = false
  any p (x ∷ xs) = p x || any p xs

  -- `Iterator::filter_map` and `find_map`.
  abbrev pub filter_map {κ} : {B : Type κ} → (A → Option B) → List A → List B
  filter_map f [] = []
  filter_map f (x ∷ xs) =
      let rest = filter_map f xs in elim (f x) [ none ↦ rest | some b ↦ b ∷ rest ]

  abbrev pub find_map {κ} : {B : Type κ} → (A → Option B) → List A → Option B
  find_map f [] = none
  find_map f (x ∷ xs) = let rest = find_map f xs in elim (f x) [ none ↦ rest | some b ↦ some b ]

  -- `slice::partition_point`, on a slice whose elements with `p` come first.
  abbrev pub partition_point : (A → Bool) → List A → ℕ
  partition_point p [] = 0
  partition_point p (x ∷ xs) = if p x then suc (partition_point p xs) else 0

  -- Each element has P.
  abbrev pub AllOf {κ} : (A → Type κ) → List A → Type κ
  AllOf P [] = Unit
  AllOf P (x ∷ xs) = P x × AllOf P xs

  pub AllOf-map {κ κ'} :
      (P : A → Type κ) (Q : A → Type κ') (xs : List A)
      → ((x : A) → P x → Q x)
      → AllOf P xs
      → AllOf Q xs
  AllOf-map P Q [] f w = tt
  AllOf-map P Q (x ∷ xs) f w = (f x w.0, AllOf-map P Q xs f w.1)

  pub AllOf-mem {κ} : (P : A → Type κ) (xs : List A) (x : A) → AllOf P xs → Memᴰ x xs → P x
  AllOf-mem P [] x w i = elim i [ ]
  AllOf-mem P (y ∷ xs) x w (Memᴰ.head e) = subst P (sym e) w.0
  AllOf-mem P (y ∷ xs) x w (Memᴰ.tail i) = AllOf-mem P xs x w.1 i

  pub length-append : (xs ys : List A) → length (xs ++ ys) ≡ length xs + length ys
  length-append [] ys = omega arith
  length-append (x ∷ xs) ys = omega (arith, length-append xs ys)

-- What `find_map` finds comes from an element.
pub find_map-mem {ℓ κ} :
    {A : Type ℓ} {B : Type κ} (f : A → Option B) (xs : List A) (b : B)
    → find_map f xs ≡ some b
    → (x : A) × Memᴰ x xs × (f x ≡ some b)
find_map-mem f [] b e = cc
find_map-mem f (x ∷ xs) b e = elim (Option-cases (f x)) [
  | inl n ↦ let (y, i, h) = find_map-mem f xs b (ground arith) in (y, Memᴰ.tail i, h)
  | inr (c, n) ↦ (x, Memᴰ.head refl, ground arith)
]

abbrev pub contains : List ℕ → ℕ → Bool
contains [] a = false
contains (x ∷ xs) a = x == a || contains xs a

-- The elements of a `HashSet`, and of a sorted list after `dedup`, in some order.
abbrev pub distinct : List ℕ → List ℕ
distinct [] = []
distinct (x ∷ xs) = let rest = distinct xs in if contains rest x then rest else x ∷ rest

-- `iter().position(..)`.
abbrev pub position : List ℕ → ℕ → Option ℕ
position [] a = none
position (x ∷ xs) a =
    let rest = position xs a in
    if x == a then some 0 else elim rest [ none ↦ none | some i ↦ some (suc i) ]
