-- ===== src/Planner/Amounts.antt =====
-- The planner's `bigint` arithmetic.
pub mod Bounds
use liquid_bot.Prelude.{ℕ, ◌+◌, ◌-◌, ◌*◌, ◌/◌, ◌^◌, ltb, ◌==◌, if◌then◌else◌}

-- Token units to 1e18 units, and back; both branch on the decimals as the source does.
unfoldable pub to_1e18 : ℕ → ℕ → ℕ
to_1e18 amount decimals =
    if decimals == 18
    then amount
    else if ltb decimals 18
    then amount * 10 ^ (18 - decimals)
    else amount / 10 ^ (decimals - 18)

unfoldable pub from_1e18 : ℕ → ℕ → ℕ
from_1e18 amount decimals =
    if decimals == 18
    then amount
    else if ltb decimals 18
    then amount / 10 ^ (18 - decimals)
    else amount * 10 ^ (decimals - 18)

unfoldable pub calculate_usd_value : ℕ → ℕ → ℕ → ℕ
unfolding to_1e18
calculate_usd_value amount decimals price_usd_1e18 =
    to_1e18 amount decimals * price_usd_1e18 / 10 ^ 18

-- The price of the collateral is not 0 where the planner calls this.
unfoldable pub calculate_expected_collateral : ℕ → ℕ → ℕ → ℕ → ℕ → ℕ → ℕ
unfolding to_1e18 from_1e18
calculate_expected_collateral debt_to_cover debt_decimals debt_price collateral_decimals
      collateral_price bonus_bps =
    let debt_value = to_1e18 debt_to_cover debt_decimals * debt_price / 10 ^ 18 in
    let amount = debt_value * 10 ^ 18 / collateral_price in
    let with_bonus = amount * (10000 + bonus_bps) / 10000 in
    from_1e18 with_bonus collateral_decimals
