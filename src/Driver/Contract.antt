-- ===== src/Driver/Contract.antt =====
-- `get_on_chain_config` of crates/rbft-node/src/rbft_consensus/on_chain_config.rs: the configuration that
-- the validator contract holds. A slot and its value are numbers; the contract's address is fixed.
pub mod Epoch
pub mod Total
use rbft.Base.{
  ℕ, zero, suc, ◌+◌, ◌-◌, ◌*◌, ◌/◌, ◌%◌, ◌^◌, List, [], ◌∷◌, ◌++◌, Option, none, some, Bool, ◌==◌,
  ltb, leb, ◌||◌, min, not, if◌then◌else◌, length, get_elem?, position, take, Exec, ok, panic,
  ◌>>=◌, filter_map, map, is_some,
}
use rbft.Types.{Address, Hash, Bytes}
use rbft.Env.{Env}
use rbft.Driver.Selection.{range_from, select_validators}

-- `storage(..)` of a state: none is an error, or nothing there.
abbrev pub Storage : Type 0
Storage = ℕ → Option ℕ

-- The provider, and the parsing of a node's record, which may ask the DNS: of the bytes of a string, with
-- what is not UTF-8 replaced, or refused.
pub record Provider : Type 0 where
  pub latest : Option Storage
  pub state_by_block_number : ℕ → Option Storage
  pub header_hash : ℕ → Option Hash
  pub parse_enode_lossy : Bytes → Option ℕ
  pub parse_enode : Bytes → Option ℕ

pub record ChainConfig : Type 0 where
  pub all_validators : List Address
  pub selected_validators : List Address
  pub max_validators : ℕ
  pub base_fee : ℕ
  pub block_interval_ms : ℕ
  pub epoch_length : ℕ
  pub all_validator_enodes : List ℕ
  pub selected_validator_enodes : List ℕ

abbrev pub default_config : ℕ → ChainConfig
default_config epoch_length = record {
  all_validators = [];
  selected_validators = [];
  max_validators = 4;
  base_fee = 4761904761905;
  block_interval_ms = 1000;
  epoch_length = epoch_length;
  all_validator_enodes = [];
  selected_validator_enodes = [];
}

abbrev pub value_or : ℕ → Option ℕ → ℕ
value_or n none = n
value_or n (some v) = v

-- A slot as a u64 or usize, with the default where it is not set or does not fit.
abbrev pub read_u64 : Storage → ℕ → ℕ → ℕ
read_u64 st slot n = let v = value_or n (st slot) in if ltb v (2 ^ 64) then v else n

abbrev pub current_state : Provider → ℕ → Option Storage
current_state p block_number =
    if leb block_number 1 then p.latest else p.state_by_block_number block_number

abbrev pub epoch_length_of : Storage → ℕ
epoch_length_of st = read_u64 st 4 32

abbrev pub epoch_config_state : Provider → ℕ → Option Storage
epoch_config_state p first = if leb first 1 then p.latest else p.state_by_block_number (first - 1)

-- `b"genesis_epoch_hash"`.
abbrev pub genesis_epoch_text : Bytes
genesis_epoch_text =
    103 ∷ 101 ∷ 110 ∷ 101 ∷ 115 ∷ 105 ∷ 115 ∷ 95 ∷ 101 ∷ 112 ∷ 111 ∷ 99 ∷ 104 ∷ 95 ∷ 104 ∷ 97 ∷ 115
    ∷ 104 ∷ []

-- The last 20 bytes of a slot, unless they are zero.
abbrev pub address_in : Option ℕ → Option Address
address_in none = none
address_in (some v) = let a = v % 2 ^ 160 in if a == 0 then none else some a

abbrev pub enode_at : List Address → List ℕ → Address → Option ℕ
enode_at all enodes a = elim (position all a) [ none ↦ none | some i ↦ get_elem? enodes i ]

module _ ⦃env : Env⦄ where
  abbrev pub default_hash : Hash
  default_hash = env.keccak256 genesis_epoch_text

  abbrev pub epoch_hash : Provider → ℕ → Hash
  epoch_hash p first =
      if leb first 1
      then value_or (value_or default_hash (p.header_hash 0)) (p.header_hash 1)
      else value_or default_hash (p.header_hash (first - 1))

  -- The slot of the first element of the array in a slot.
  abbrev pub array_start : ℕ → ℕ
  array_start slot = env.keccak256 (env.hash_bytes slot)

  unfoldable pub num_validators : Storage → ℕ
  num_validators st = min (read_u64 st 0 0) 256

  unfoldable pub read_validators : Storage → List Address
  unfolding num_validators
  read_validators st =
      filter_map (λ i. address_in (st (min (array_start 0 + i) (2 ^ 256 - 1))))
        (range_from 0 (num_validators st))

  -- The bytes of so many slots, one after the other.
  abbrev pub read_chunks : Storage → ℕ → List ℕ → Bytes
  read_chunks st start [] = []
  read_chunks st start (j ∷ js) =
      env.hash_bytes (value_or 0 (st ((start + j) % 2 ^ 256))) ++ read_chunks st start js

  -- A string: short ones stand in the slot, longer ones at its hash.
  abbrev pub read_enode : Provider → Storage → ℕ → Option ℕ
  read_enode p st slot =
      let word = value_or 0 (st slot) in
      let short = word % 256 / 2 in
      let long = (word - 1) / 2 in
      if word % 2 == 0
      then (if short == 0 || ltb 31 short
          then none
          else p.parse_enode_lossy (take short (env.hash_bytes word)))
      else if long == 0 || ltb 1024 long
      then none
      else p.parse_enode
          (take long (read_chunks st (array_start slot) (range_from 0 ((long + 31) / 32))))

  unfoldable pub read_enodes : Provider → Storage → List ℕ
  read_enodes p st =
      filter_map (λ i. read_enode p st ((array_start 5 + i) % 2 ^ 256))
        (range_from 0 (min (read_u64 st 5 0) 256))

  -- The configuration of an epoch, from the state at the end of the one before.
  unfoldable pub epoch_config : Provider → Storage → ℕ → Option Storage → Exec ChainConfig
  epoch_config p current first none = ok (default_config (epoch_length_of current))
  epoch_config p current first (some st) =
      let all = read_validators st in
      let most = read_u64 st 1 4 in
      let config : ChainConfig = record (default_config (epoch_length_of current)) {
        max_validators = most;
        base_fee = read_u64 st 2 4761904761905;
        block_interval_ms = read_u64 st 3 1000;
      } in
      let enodes = read_enodes p current in
      if num_validators st == 0
      then ok config
      else (select_validators (epoch_hash p first) most all >>= λ selected. ok (record config {
        all_validators = all;
        selected_validators = selected;
        all_validator_enodes = enodes;
        selected_validator_enodes = filter_map (enode_at all enodes) selected;
      }))

  abbrev pub config_in : Provider → ℕ → Option Storage → Exec ChainConfig
  config_in p block_number none = ok (default_config 32)
  config_in p block_number (some current) =
      let e = epoch_length_of current in
      if e == 0
      then panic
      else (let first = block_number / e * e in
          epoch_config p current first (epoch_config_state p first))

  unfoldable pub get_on_chain_config : Provider → ℕ → Exec ChainConfig
  get_on_chain_config p block_number = config_in p block_number (current_state p block_number)
