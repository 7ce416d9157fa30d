-- ===== src/Logjam.antt =====
-- crates/rbft-utils/src/logjam.rs: the analysis of the nodes' logs. A name, a character and a time, in
-- nanoseconds from an epoch before the logs, are numbers; a line is what its parsing gives.
pub mod Maps
pub mod Histogram
pub mod Delivery
pub mod Network
pub mod Missing
pub mod Reports
pub mod Wire
use rbft.Base.{ℕ, List, [], ◌∷◌, Option, none, some, Bool, ◌&&◌, ◌==◌, if◌then◌else◌, map, any, min}

pub record MessageKey : Type 0 where
  pub height : ℕ
  pub round : ℕ
  pub kind : ℕ

abbrev pub same_key : MessageKey → MessageKey → Bool
same_key a b = a.height == b.height && a.round == b.round && a.kind == b.kind

-- A hash map as a list of entries, with its `get` and `insert`.
module _ {K V : Type 0} (same : K → K → Bool) where
  unfoldable pub find_entry : List (K × V) → K → Option V
  find_entry [] k = none
  find_entry ((j, v) ∷ m) k = let rest = find_entry m k in if same j k then some v else rest

  unfoldable pub put_entry : List (K × V) → K → V → List (K × V)
  put_entry [] k v = (k, v) ∷ []
  put_entry ((j, w) ∷ m) k v =
      let rest = put_entry m k v in if same j k then (j, v) ∷ m else (j, w) ∷ rest

abbrev pub same_name : ℕ → ℕ → Bool
same_name a b = a == b

abbrev pub names : List (ℕ × ℕ) → List ℕ
names = map λ e. e.0

-- `values().min()`.
abbrev pub earliest : List (ℕ × ℕ) → Option ℕ
earliest [] = none
earliest ((name, time) ∷ m) =
    let rest = earliest m in elim rest [ none ↦ some time | some t ↦ some (min time t) ]
