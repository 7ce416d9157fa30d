-- ===== src/Base/Panics.antt =====
-- Code that may panic: the `expect` calls of the source end in `panic`.
use mathlib.Core.Path.{◌≡◌, refl}
use mathlib.Core.Option.{Option, none, some}

pub data Exec {ℓ} (A : Type ℓ) : Type ℓ where
  ok : A → Exec A
  panic : Exec A

infixl 5 ◌>>=◌
abbrev pub ◌>>=◌ {ℓ κ} : {A : Type ℓ} {B : Type κ} → Exec A → (A → Exec B) → Exec B
ok a >>= f = f a
panic >>= f = panic

-- `Option::expect`.
abbrev pub expect {ℓ} : {A : Type ℓ} → Option A → Exec A
expect none = panic
expect (some a) = ok a

-- The code returned, with a value that has P.
abbrev pub Gives {ℓ κ} : {A : Type ℓ} → Exec A → (A → Type κ) → Type (ℓ ⊔ κ)
Gives {A = A} m P = (a : A) × (m ≡ ok a) × P a

pub Gives_ok {ℓ κ} : {A : Type ℓ} (P : A → Type κ) (a : A) → P a → Gives (ok a) P
Gives_ok P a p = (a, refl, p)

pub bind-ok {ℓ κ} :
    {A : Type ℓ} {B : Type κ} (m : Exec A) (f : A → Exec B) (b : B)
    → (m >>= f) ≡ ok b
    → (a : A) × (m ≡ ok a) × (f a ≡ ok b)
bind-ok (ok a) f b e = (a, refl, e)
bind-ok panic f b e = cc

pub ok_injective {ℓ} : {A : Type ℓ} (a b : A) → ok a ≡ ok b → a ≡ b
ok_injective a b e = cc
