-- ===== src/Logjam/Maps.antt =====
-- The maps of the log analysis: what an insertion changes.
use rbft.Base.{
  ℕ, ◌≡◌, refl, ◌∙◌, ap, List, [], ◌∷◌, none, some, Bool, true, if◌then◌else◌, any, arith,
  Bool-cases, inl, inr, ◌==◌,
}
use rbft.Logjam.{MessageKey, same_key, find_entry, put_entry, same_name, names}

pub same_key_sound : (a b : MessageKey) → same_key a b ≡ true → a ≡ b
same_key_sound a b e = ground arith

pub same_key_refl : (a : MessageKey) → same_key a a ≡ true
same_key_refl a = ground arith

module _ {K V : Type 0} (same : K → K → Bool) where
  -- No key stands twice.
  abbrev pub IsApart : List (K × V) → Type 0
  IsApart [] = Unit {0}
  IsApart ((k, v) ∷ m) = (find_entry same m k ≡ none) × IsApart m

module _ {K : Type 0} (same : K → K → Bool) (sound : (a b : K) → same a b ≡ true → a ≡ b)
    (same_refl : (a : K) → same a a ≡ true) where
  same_left : (i k j : K) → same i k ≡ true → same i j ≡ same k j
  same_left i k j e = ap (λ x. same x j) (sound i k e)

  same_both : (i k j : K) → same i j ≡ true → same k j ≡ true → same i k ≡ true
  same_both i k j e h = rw (sound i j e, sound k j h) (same_refl j)

module _ {K V : Type 0} (same : K → K → Bool) (sound : (a b : K) → same a b ≡ true → a ≡ b)
    (same_refl : (a : K) → same a a ≡ true) where
  pub find_entry-put_entry :
      (m : List (K × V)) (k j : K) (v : V)
      → find_entry same (put_entry same m k v) j
        ≡ (if same k j then some v else find_entry same m j)
  unfolding find_entry put_entry
  find_entry-put_entry [] k j v = refl
  find_entry-put_entry ((i, w) ∷ m) k j v = elim (Bool-cases (same i k)) [
    | inl e ↦ rw (put_entry, e) (ground (arith, same_left same sound same_refl i k j e))
    | inr e ↦
        rw (put_entry, e)
          (ground (arith, same_both same sound same_refl i k j, find_entry-put_entry m k j v))
  ]

  pub put_entry-IsApart :
      (m : List (K × V)) (k : K) (v : V) → IsApart same m → IsApart same (put_entry same m k v)
  unfolding put_entry find_entry
  put_entry-IsApart [] k v a = (refl, tt)
  put_entry-IsApart ((i, w) ∷ m) k v a = elim (Bool-cases (same i k)) [
    | inl e ↦ rw e a
    | inr e ↦ rw e (
      find_entry-put_entry m k i v
          ∙ ground (arith, same_both same sound same_refl i k i, same_refl i, a.0),
      put_entry-IsApart m k v a.1,
    )
  ]

-- An insertion loses no name.
pub any-put_entry :
    (p : ℕ → Bool) (m : List (ℕ × ℕ)) (k v : ℕ)
    → any p (names m) ≡ true
    → any p (names (put_entry same_name m k v)) ≡ true
unfolding put_entry
any-put_entry p [] k v h = ground arith
any-put_entry p ((i, w) ∷ m) k v h = elim (Bool-cases (i == k)) [
  | inl e ↦ rw e h
  | inr e ↦ rw e (ground (arith, any-put_entry p m k v))
]
