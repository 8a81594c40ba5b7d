-- ===== src/Planner/Amounts/Bounds.antt =====
-- The rounding of the planner's arithmetic is always downwards, and by how much.
use native.Mathlib.Nat.{div-mul-le_self, mul-div_left, lt-div-mul-add, mul-le-mul_right, one-le-pow}
use liquid_bot.Prelude.{ℕ, ◌+◌, ◌-◌, ◌*◌, ◌/◌, ◌^◌, ◌≤◌, ◌<◌, arith}
use liquid_bot.Planner.Amounts.{
  to_1e18, from_1e18, calculate_usd_value, calculate_expected_collateral,
}

ten_pow_pos : (n : ℕ) → 0 < 10 ^ n
ten_pow_pos n = one-le-pow n 10 (omega arith)

-- Back and forth between units never gains.
pub to_1e18-from_1e18-le :
    (amount decimals : ℕ) → to_1e18 (from_1e18 amount decimals) decimals ≤ amount
unfolding to_1e18 from_1e18
to_1e18-from_1e18-le amount decimals = ground (
  arith,
  div-mul-le_self amount (10 ^ (18 - decimals)),
  mul-div_left amount (ten_pow_pos (decimals - 18)),
)

-- It loses less than one token unit.
pub lt-to_1e18-from_1e18 :
    (amount decimals : ℕ)
    → amount < to_1e18 (from_1e18 amount decimals) decimals + 10 ^ (18 - decimals)
unfolding to_1e18 from_1e18
lt-to_1e18-from_1e18 amount decimals = ground (
  arith,
  lt-div-mul-add {a = amount} (ten_pow_pos (18 - decimals)),
  ten_pow_pos (18 - decimals),
  mul-div_left amount (ten_pow_pos (decimals - 18)),
)

-- The chain of three cut-off divisions, without the units.
chain-le :
    (v p c w b k : ℕ)
    → c * p ≤ v * k
    → w * 10000 ≤ c * (10000 + b)
    → w * p * 10000 ≤ v * (10000 + b) * k
chain-le v p c w b k h g = omega (arith, mul-le-mul_right p g, mul-le-mul_right (10000 + b) h)

chain-lt :
    (v p c w b k : ℕ)
    → v * k < c * p + p
    → c * (10000 + b) < w * 10000 + 10000
    → v * (10000 + b) * k ≤ (w * 10000 + 20000 + b) * p
chain-lt v p c w b k h g = omega (arith, mul-le-mul_right (10000 + b) h, mul-le-mul_right p g)

-- With prices that are not negative, what the planner expects to receive is worth at most the covered
-- debt and its bonus: the estimate never promises more than the protocol's formula, whatever the two tokens' decimals.
pub usd-expected-le :
    (cover debt_decimals debt_price collateral_decimals collateral_price bonus : ℕ)
    → calculate_usd_value
          (calculate_expected_collateral cover debt_decimals debt_price collateral_decimals
            collateral_price bonus)
          collateral_decimals
          collateral_price
        * 10000
      ≤ calculate_usd_value cover debt_decimals debt_price * (10000 + bonus)
unfolding calculate_usd_value calculate_expected_collateral
usd-expected-le cover dd dp cd cp bonus =
    let v = to_1e18 cover dd * dp / 10 ^ 18 in
    let c = v * 10 ^ 18 / cp in
    let w = c * (10000 + bonus) / 10000 in
    let back = to_1e18 (from_1e18 w cd) cd in
    omega (
      arith,
      chain-le v cp c w bonus (10 ^ 18) (div-mul-le_self (v * 10 ^ 18) cp)
          (div-mul-le_self (c * (10000 + bonus)) 10000),
      mul-le-mul_right cp (to_1e18-from_1e18-le w cd),
      div-mul-le_self (back * cp) (10 ^ 18),
    )

-- The estimate is also tight, for a collateral price that is not 0. In the 1e18 scale of the
-- collateral, the formula's amount is at most the estimate, and one unit of the collateral token
-- (one unit of the scale, if the token is finer), and two and `bonus / 10000` units of the scale.
pub expected-tight :
    (cover debt_decimals debt_price collateral_decimals collateral_price bonus : ℕ)
    → 0 < collateral_price
    → calculate_usd_value cover debt_decimals debt_price * (10000 + bonus) * 10 ^ 18
      ≤ ((to_1e18
                (calculate_expected_collateral cover debt_decimals debt_price collateral_decimals
                  collateral_price bonus)
                collateral_decimals
              + 10 ^ (18 - collateral_decimals))
            * 10000
          + 20000
          + bonus)
        * collateral_price
unfolding calculate_usd_value calculate_expected_collateral
expected-tight cover dd dp cd cp bonus h =
    let v = to_1e18 cover dd * dp / 10 ^ 18 in
    let c = v * 10 ^ 18 / cp in
    let w = c * (10000 + bonus) / 10000 in
    omega (
      arith,
      chain-lt v cp c w bonus (10 ^ 18) (lt-div-mul-add {a = v * 10 ^ 18} h)
          (lt-div-mul-add {a = c * (10000 + bonus)} {b = 10000} (omega arith)),
      mul-le-mul_right (10000 * cp) (lt-to_1e18-from_1e18 w cd),
    )
