-- ===== src/Tests/ContractExamples.antt =====
-- The theorems on the validators of an epoch, at concrete inputs.
use rbft.Base.{◌*◌, ◌^◌, ◌≡◌, refl, none, some, ◌==◌, if◌then◌else◌, min, length, ok, Gives, arith}
use rbft.Driver.Selection.{select_validators}
use rbft.Driver.Selection.Subset.{IsSublist, select_validators-IsSublist}
use rbft.Driver.Contract.{Storage, Provider, ChainConfig, get_on_chain_config}
use rbft.Driver.Contract.Epoch.{IsSameEpoch, get_on_chain_config-IsSameEpoch}
use rbft.Tests.{test_env, members}

select_validators-IsSublist_example :
    Gives
      (select_validators (7 * 2 ^ 192) 2 members)
      (λ r. (length r ≡ min 2 (length members)) × IsSublist r members)
select_validators-IsSublist_example = select_validators-IsSublist (7 * 2 ^ 192) 2 members

-- Five slots from 1 on, where the array of validators starts here: 3 of them may be selected, and the
-- epoch has 4 blocks.
abbrev slots : Storage
slots slot =
    if slot == 0
    then some 5
    else if slot == 1
    then some 3
    else if slot == 2
    then some 7
    else if slot == 3
    then some 500
    else if slot == 4
    then some 4
    else none

-- A provider with every block, and one that does not know the latest state.
abbrev archive : Provider
archive = record {
  latest = some slots;
  state_by_block_number = λ n. some slots;
  header_hash = λ n. some (9 * 2 ^ 192);
  parse_enode_lossy = λ bytes. none;
  parse_enode = λ bytes. none;
}

abbrev behind : Provider
behind = record archive { latest = none }

get_on_chain_config-IsSameEpoch_example :
    (c : ChainConfig) × (d : ChainConfig) × (get_on_chain_config archive 9 ≡ ok c)
    × (get_on_chain_config behind 11 ≡ ok d)
    × IsSameEpoch c d
get_on_chain_config-IsSameEpoch_example =
    get_on_chain_config-IsSameEpoch archive behind 9 11 4 slots slots refl refl refl refl
      (omega arith) refl (omega arith) refl refl
