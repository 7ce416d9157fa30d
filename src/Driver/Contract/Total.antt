-- ===== src/Driver/Contract/Total.antt =====
-- When `get_on_chain_config` of crates/rbft-node/src/rbft_consensus/on_chain_config.rs returns: it divides
-- by the epoch length that the contract holds.
use rbft.Base.{
  ℕ, ◌<◌, ◌/◌, ◌*◌, ◌≡◌, refl, Option, none, some, ok, ◌==◌, false, arith, Bool-cases, Option-cases,
  inl, inr,
}
use rbft.Env.{Env}
use rbft.Driver.Selection.Subset.{select_validators-IsSublist}
use rbft.Driver.Contract.{
  Storage, Provider, ChainConfig, current_state, epoch_length_of, epoch_config_state, epoch_hash,
  read_u64, num_validators, read_validators, epoch_config, get_on_chain_config,
}

-- The epoch lengths of the contract, at the blocks that the provider knows, are above 0.
abbrev pub HasEpochs : Provider → Type 0
HasEpochs p =
    (n : ℕ) (current : Storage) → current_state p n ≡ some current → 0 < epoch_length_of current

module _ ⦃env : Env⦄ where
  epoch_config-Gives :
      (p : Provider) (current : Storage) (first : ℕ) (o : Option Storage)
      → (c : ChainConfig) × (epoch_config p current first o ≡ ok c)
  unfolding epoch_config
  epoch_config-Gives p current first none = (_, refl)
  epoch_config-Gives p current first (some st) = elim (Bool-cases (num_validators st == 0)) [
    | inl z ↦ rw z (_, refl)
    | inr n ↦
        let (selected, e, _) =
          select_validators-IsSublist (epoch_hash p first) (read_u64 st 1 4) (read_validators st) in
        rw (n, e) (_, refl)
  ]

  -- With such epoch lengths, the reading of the configuration does not panic.
  pub get_on_chain_config-Gives :
      (p : Provider) (n : ℕ) → HasEpochs p → (c : ChainConfig) × (get_on_chain_config p n ≡ ok c)
  unfolding get_on_chain_config
  get_on_chain_config-Gives p n epochs = elim (Option-cases (current_state p n)) [
    | inl e ↦ rw e (_, refl)
    | inr (current, e) ↦
        let set : (epoch_length_of current == 0) ≡ false = ground (arith, epochs n current e) in
        let (c, f) =
          epoch_config-Gives p current (n / epoch_length_of current * epoch_length_of current)
            (epoch_config_state p (n / epoch_length_of current * epoch_length_of current)) in
        rw (e, set) (c, f)
  ]
