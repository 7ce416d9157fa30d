-- ===== src/Config.antt =====
-- crates/rbft/src/types/configuration.rs.
use rbft.Base.{ℕ, Bool, List}
use rbft.Types.{Address, Block}
use rbft.Env.{Env}

-- The three floats are numbers for their bits.
pub record RoundChangeConfig : Type 0 where
  pub start_time : ℕ
  pub first_interval : ℕ
  pub growth_factor : ℕ
  pub max_round : ℕ
  pub round_change_on_first_block : Bool

pub record Configuration : Type 0 where
  pub nodes : List Address
  pub genesis_block : Block
  pub block_time : ℕ
  pub round_change_config : RoundChangeConfig

module _ ⦃env : Env⦄ where
  unfoldable pub timeout_for_round : RoundChangeConfig → ℕ → ℕ
  timeout_for_round c round = env.f64_ceil_u64 (
      env.f64_add c.start_time (
        env.f64_mul c.first_interval
          (env.f64_pow2 (env.f64_mul c.growth_factor (env.f64_of_u64 round)))))
