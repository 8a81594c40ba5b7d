-- ===== src/Planner/Types.antt =====
-- The planner's data: the reserves of a user, candidate pairs and plans, and what it is told from
-- outside. Amounts are `bigint` values that are never negative, and a profit may be. Prices are naturals
-- here: `getUsdPrice` may give a negative one, which the planner does not drop, and which is left out.
-- A score, the double `Number(profit) / 1e18`, is held exactly, in units of 1e-18 dollars.
use liquid_bot.Prelude.{ℕ, Bool, Option, List}
use liquid_bot.Prelude.Int.{ℤ}
use liquid_bot.Prelude.Text.{Text}
use liquid_bot.JsMap.{JsMap}

pub record UserReserveData : Type 0 where
  pub underlying_asset : Text
  pub current_a_token_balance : ℕ
  pub current_stable_debt : ℕ
  pub current_variable_debt : ℕ
  pub principal_stable_debt : ℕ
  pub scaled_variable_debt : ℕ
  pub stable_borrow_rate : ℕ
  pub liquidity_rate : ℕ
  pub stable_rate_last_updated : ℕ
  pub usage_as_collateral_enabled : Bool

-- Of a reserve's configuration the planner reads the bonus alone.
pub record ReserveConfig : Type 0 where
  pub liquidation_bonus : ℕ

pub record CandidatePlan : Type 0 where
  pub debt_asset : Text
  pub collateral_asset : Text
  pub debt_to_cover : ℕ
  pub expected_collateral_out : ℕ
  pub oracle_score : ℤ
  pub debt_asset_decimals : ℕ
  pub collateral_asset_decimals : ℕ
  pub liquidation_bonus_bps : ℕ

pub record LiquidationPlan : Type 0 where
  pub user : Text
  pub debt_asset : Text
  pub collateral_asset : Text
  pub debt_to_cover : ℕ
  pub expected_collateral_out : ℕ
  pub debt_asset_decimals : ℕ
  pub collateral_asset_decimals : ℕ
  pub liquidation_bonus_bps : ℕ
  pub profit_usd : ℤ
  pub execution_time_ms : ℕ

pub record PairScore : Type 0 where
  pub debt_reserve : UserReserveData
  pub collateral_reserve : UserReserveData
  pub score : ℤ
  pub oracle_score_big_int : ℤ
  pub debt_usd_1e18 : ℕ
  pub collateral_usd_1e18 : ℕ
  pub expected_collateral_out : ℕ
  pub debt_to_cover : ℕ
  pub liquidation_bonus_bps : ℕ

-- What the planner asks of the chain and of the price layer; `none` is a rejected promise.
pub record Sources : Type 0 where
  pub all_user_reserves : Text → Option (List UserReserveData)
  pub usd_price_for_address : Text → Option ℕ
  pub contract_decimals : Text → Option ℕ
  pub reserve_configuration_data : Text → Option ReserveConfig

-- The state between calls: the planner's own cache, and that of `getTokenDecimals`.
pub record Caches : Type 0 where
  pub reserve_config_cache : JsMap Text ReserveConfig
  pub token_decimals_cache : JsMap Text ℕ

-- What the scoring phase reads.
pub record Quotes : Type 0 where
  pub prices : JsMap Text ℕ
  pub decimals : JsMap Text ℕ
  pub configs : JsMap Text ReserveConfig
