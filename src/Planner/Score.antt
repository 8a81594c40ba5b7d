-- ===== src/Planner/Score.antt =====
-- The second phase: every profitable pair of a debt and a collateral, with its amounts.
pub mod Sound
use liquid_bot.Prelude.{
  ℕ, ◌+◌, ◌-◌, ◌*◌, ◌/◌, Bool, Option, none, some, List, [], ◌∷◌, ◌++◌, if◌then◌else◌, ltb, ◌==◌,
}
use liquid_bot.Prelude.Int.{ℤ, pos, sub_ℕ, ◌-ℤ◌, scale_ℤ, ltb_ℤ}
use liquid_bot.Prelude.Text.{Text, to_lower_case, text_key}
use liquid_bot.JsMap.{JsMap, get}
use liquid_bot.Planner.Types.{UserReserveData, ReserveConfig, PairScore, Quotes}
use liquid_bot.Planner.Amounts.{calculate_usd_value, calculate_expected_collateral}

abbrev pub close_factor_bps : ℕ
close_factor_bps = 5000

abbrev pub conservative_haircut_bps : ℕ
conservative_haircut_bps = 200

unfoldable pub total_debt : UserReserveData → ℕ
total_debt r = r.current_variable_debt + r.current_stable_debt

unfoldable pub debt_to_cover : UserReserveData → ℕ
unfolding total_debt
debt_to_cover r = total_debt r * close_factor_bps / 10000

-- A price and decimals, unless one is missing or the price is 0 (`!price`). A negative price, which the
-- source lets through, is not among the values here.
unfoldable pub quote : Quotes → Text → Option (ℕ × ℕ)
quote q address = elim (get address q.prices) [
  | none ↦ none
  | some price ↦
      if price == 0
      then none
      else elim (get address q.decimals) [ none ↦ none | some d ↦ some (price, d) ]
]

unfoldable pub liquidation_bonus_bps : ReserveConfig → ℕ
liquidation_bonus_bps c = if ltb 10000 c.liquidation_bonus then c.liquidation_bonus - 10000 else 500

-- The profit less the haircut, in 1e-18 dollars.
unfoldable pub conservative_profit : ℕ → ℕ → ℤ
unfolding ◌-ℤ◌ scale_ℤ
conservative_profit collateral_usd debt_usd =
    let profit = sub_ℕ collateral_usd debt_usd in
    profit -ℤ scale_ℤ profit conservative_haircut_bps 10000

-- The amounts of a pair at its two quotes, a price and decimals each.
unfoldable pub pair_score : UserReserveData → UserReserveData → ℕ × ℕ → ℕ × ℕ → ℕ → PairScore
pair_score debt collateral (debt_price, debt_decimals) (collateral_price, collateral_decimals)
      bonus =
    let cover = debt_to_cover debt in
    let out =
      calculate_expected_collateral cover debt_decimals debt_price collateral_decimals
        collateral_price bonus in
    let debt_usd = calculate_usd_value cover debt_decimals debt_price in
    let out_usd = calculate_usd_value out collateral_decimals collateral_price in
    let profit = conservative_profit out_usd debt_usd in
    record {
      debt_reserve = debt;
      collateral_reserve = collateral;
      score = profit;
      oracle_score_big_int = profit;
      debt_usd_1e18 = debt_usd;
      collateral_usd_1e18 = out_usd;
      expected_collateral_out = out;
      debt_to_cover = cover;
      liquidation_bonus_bps = bonus;
    }

-- The two `continue`-or-push tests of the inner loop: enough collateral, and a profit.
unfoldable pub priced_pair :
    UserReserveData → UserReserveData → ℕ × ℕ → ℕ × ℕ → ℕ → Option PairScore
priced_pair debt collateral debt_quote collateral_quote bonus =
    let p = pair_score debt collateral debt_quote collateral_quote bonus in
    if ltb collateral.current_a_token_balance p.expected_collateral_out
    then none
    else if ltb_ℤ (pos 0) p.score
    then some p
    else none

unfoldable pub score_pair : Quotes → UserReserveData → ℕ × ℕ → UserReserveData → Option PairScore
score_pair q debt debt_quote collateral =
    let address = to_lower_case collateral.underlying_asset in
    elim (quote q address) [
      | none ↦ none
      | some collateral_quote ↦ elim (get address q.configs) [
        | none ↦ none
        | some config ↦
            priced_pair debt collateral debt_quote collateral_quote (liquidation_bonus_bps config)
      ]
    ]

unfoldable pub score_collaterals :
    Quotes → UserReserveData → ℕ × ℕ → List UserReserveData → List PairScore
score_collaterals q debt debt_quote [] = []
score_collaterals q debt debt_quote (c ∷ cs) = elim (score_pair q debt debt_quote c) [
  | none ↦ score_collaterals q debt debt_quote cs
  | some p ↦ p ∷ score_collaterals q debt debt_quote cs
]

unfoldable pub score_pairs : Quotes → List UserReserveData → List UserReserveData → List PairScore
score_pairs q [] collaterals = []
score_pairs q (d ∷ ds) collaterals = elim (quote q (to_lower_case d.underlying_asset)) [
  | none ↦ score_pairs q ds collaterals
  | some debt_quote ↦ score_collaterals q d debt_quote collaterals ++ score_pairs q ds collaterals
]
