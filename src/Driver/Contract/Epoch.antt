-- ===== src/Driver/Contract/Epoch.antt =====
-- The validators of an epoch are the same in all its blocks.
use rbft.Base.{
  ℕ, ◌*◌, ◌-◌, ◌/◌, ◌<◌, ◌≡◌, refl, sym, ap, ◌∙◌, Option, none, some, false, leb, ◌==◌, min, length,
  arith, ok, Bool-cases, inl, inr,
}
use rbft.Env.{Env}
use rbft.Driver.Selection.{select_validators}
use rbft.Driver.Selection.Subset.{IsSublist, done, select_validators-IsSublist}
use rbft.Driver.Contract.{
  Storage, Provider, ChainConfig, current_state, epoch_length_of, epoch_hash, read_u64,
  num_validators, read_validators, epoch_config, get_on_chain_config, value_or, default_hash,
}

-- Two configurations with the same validators, of which some are selected.
pub record IsSameEpoch (c d : ChainConfig) : Type 0 where
  pub all : c.all_validators ≡ d.all_validators
  pub selected : c.selected_validators ≡ d.selected_validators
  pub interval : c.block_interval_ms ≡ d.block_interval_ms
  pub max : c.max_validators ≡ d.max_validators
  pub among : IsSublist c.selected_validators c.all_validators
  pub count : length c.selected_validators ≡ min c.max_validators (length c.all_validators)

module _ ⦃env : Env⦄ where
  epoch_config-IsSameEpoch :
      (p q : Provider) (a b : Storage) (first : ℕ) (o : Option Storage)
      → epoch_hash p first ≡ epoch_hash q first
      → (c : ChainConfig) × (d : ChainConfig) × (epoch_config p a first o ≡ ok c)
        × (epoch_config q b first o ≡ ok d)
        × IsSameEpoch c d
  unfolding epoch_config
  epoch_config-IsSameEpoch p q a b first none h = (
    _,
    _,
    refl,
    refl,
    record { all = refl; selected = refl; interval = refl; max = refl; among = done; count = refl },
  )
  epoch_config-IsSameEpoch p q a b first (some st) h = elim (Bool-cases (num_validators st == 0)) [
    | inl z ↦ rw z (
      _,
      _,
      refl,
      refl,
      record {
        all = refl;
        selected = refl;
        interval = refl;
        max = refl;
        among = done;
        count = omega arith;
      },
    )
    | inr n ↦
        let (selected, e, (count, s)) =
          select_validators-IsSublist (epoch_hash p first) (read_u64 st 1 4) (read_validators st) in
        let f : select_validators (epoch_hash q first) (read_u64 st 1 4) (read_validators st)
            ≡ ok selected =
          ap (λ x. select_validators x (read_u64 st 1 4) (read_validators st)) (sym h) ∙ e in
        rw (n, e, f)
          (
            _,
            _,
            refl,
            refl,
            record {
              all = refl;
              selected = refl;
              interval = refl;
              max = refl;
              among = s;
              count = count;
            },
          )
  ]

  -- Two nodes choose the same validators, at the same block interval, for any two blocks of one epoch
  -- after the first: where each knows the state at its block, the epoch length there is the same and not
  -- 0, and both have the same state and header of the last block of the epoch before. Nothing panics, and
  -- those that are selected are validators of the contract in their order, as many as are allowed, or all.
  pub get_on_chain_config-IsSameEpoch :
      (p q : Provider) (n m e : ℕ) (a b : Storage)
      → current_state p n ≡ some a
      → current_state q m ≡ some b
      → epoch_length_of a ≡ e
      → epoch_length_of b ≡ e
      → 0 < e
      → n / e ≡ m / e
      → 1 < n / e * e
      → p.state_by_block_number (n / e * e - 1) ≡ q.state_by_block_number (n / e * e - 1)
      → p.header_hash (n / e * e - 1) ≡ q.header_hash (n / e * e - 1)
      → (c : ChainConfig) × (d : ChainConfig) × (get_on_chain_config p n ≡ ok c)
        × (get_on_chain_config q m ≡ ok d)
        × IsSameEpoch c d
  unfolding get_on_chain_config
  get_on_chain_config-IsSameEpoch p q n m e a b sp sq ep eq pos same late state hash =
      let first = n / e * e in
      let other : leb first 1 ≡ false = ground arith in
      let set : (e == 0) ≡ false = ground arith in
      let seeds : epoch_hash p first ≡ epoch_hash q first =
        rw other (ap (value_or default_hash) hash) in
      let (c, d, f, g, h) =
        epoch_config-IsSameEpoch p q a b first (q.state_by_block_number (first - 1)) seeds in
      (c, d, rw (sp, ep, set, other, state) f, rw (sq, eq, set, sym same, other) g, h)
