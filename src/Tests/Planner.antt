-- ===== src/Tests/Planner.antt =====
-- A user who owes 2 WETH at 2500 dollars and holds 10000 USDC.
use liquid_bot.Prelude.{
  ◌+◌, ◌*◌, ◌^◌, ◌≤◌, ◌≡◌, refl, Bool, true, false, none, some, List, [], ◌∷◌, length, All, here,
}
use liquid_bot.Prelude.Int.{pos, ◌≤ℤ◌, ◌-ℤ◌, scale_ℤ}
use liquid_bot.Prelude.Text.{Text, codes, text_eq, text_key, to_lower_case, lower_unit}
use liquid_bot.Prelude.Sort.{insert, sort}
use liquid_bot.JsMap.{get, has, set}
use liquid_bot.Planner.Types.{UserReserveData, CandidatePlan, PairScore, Sources, Caches, Quotes}
use liquid_bot.Planner.Amounts.{
  to_1e18, from_1e18, calculate_usd_value, calculate_expected_collateral,
}
use liquid_bot.Planner.Fetch.{
  add_addresses, all_addresses, fetch_prices, get_token_decimals, fetch_decimals, get_config,
  fetch_configs, prefetch,
}
use liquid_bot.Planner.Score.{
  total_debt, debt_to_cover, quote, liquidation_bonus_bps, conservative_profit, pair_score,
  priced_pair, score_pair, score_collaterals, score_pairs,
}
use liquid_bot.Planner.Select.{
  top_n_pairs, top_pairs, best_pair, select_top_pairs, select_best_pair,
}
use liquid_bot.Planner.Amounts.Bounds.{usd-expected-le}
use liquid_bot.Planner.Score.Sound.{Scored, score_pairs-Scored}
use liquid_bot.Planner.Select.Best.{best_pair-max}
use liquid_bot.Planner.Plans.Returned.{IsPlanned, user_quotes, build_candidate_plans-returned}
use liquid_bot.Planner.Plans.Agreement.{first_plan, build_plan-first}
use liquid_bot.Planner.Plans.{
  has_debt, has_collateral, returned, thrown, pair_decimals, candidates, on_positions,
  with_positions, build_candidate_plans, finish_plan, build_plan,
}

program : Unit {0}
unfolding to_1e18 from_1e18 calculate_usd_value calculate_expected_collateral text_eq to_lower_case
    lower_unit insert sort get has set add_addresses all_addresses fetch_prices get_token_decimals
    fetch_decimals get_config fetch_configs prefetch total_debt debt_to_cover quote
    liquidation_bonus_bps conservative_profit pair_score priced_pair score_pair score_collaterals
    score_pairs top_pairs best_pair select_top_pairs select_best_pair pair_decimals candidates
    on_positions with_positions build_candidate_plans finish_plan build_plan ◌-ℤ◌ scale_ℤ
program = tt

abbrev weth : Text
weth = codes "0xWe"

abbrev usdc : Text
usdc = codes "0xUs"

abbrev no_reserve : UserReserveData
no_reserve = record {
  underlying_asset = weth;
  current_a_token_balance = 0;
  current_stable_debt = 0;
  current_variable_debt = 0;
  principal_stable_debt = 0;
  scaled_variable_debt = 0;
  stable_borrow_rate = 0;
  liquidity_rate = 0;
  stable_rate_last_updated = 0;
  usage_as_collateral_enabled = false;
}

abbrev weth_debt : UserReserveData
weth_debt = record no_reserve { current_variable_debt = 2 * 10 ^ 18 }

abbrev usdc_collateral : UserReserveData
usdc_collateral = record no_reserve {
  underlying_asset = usdc;
  current_a_token_balance = 10000 * 10 ^ 6;
  usage_as_collateral_enabled = true;
}

abbrev reserves : List UserReserveData
reserves = weth_debt ∷ usdc_collateral ∷ []

abbrev is_weth : Text → Bool
is_weth a = text_eq a (codes "0xwe")

abbrev pub sources : Sources
sources = record {
  all_user_reserves = λ _. some reserves;
  usd_price_for_address =
      λ a. elim (is_weth a) [ true ↦ some (2500 * 10 ^ 18) | false ↦ some (10 ^ 18) ];
  contract_decimals = λ a. elim (is_weth a) [ true ↦ some 18 | false ↦ some 6 ];
  reserve_configuration_data = λ _. some (record { liquidation_bonus = 10500 });
}

abbrev pub cold : Caches
cold = record { reserve_config_cache = []; token_decimals_cache = [] }

abbrev pub user : Text
user = codes "0xabc"

abbrev pub expected_plan : CandidatePlan
expected_plan = record {
  debt_asset = weth;
  collateral_asset = usdc;
  debt_to_cover = 10 ^ 18;
  expected_collateral_out = 2625 * 10 ^ 6;
  oracle_score = pos (1225 * 10 ^ 17);
  debt_asset_decimals = 18;
  collateral_asset_decimals = 6;
  liquidation_bonus_bps = 500;
}

pub one_candidate : (build_candidate_plans sources cold user).1 ≡ returned (expected_plan ∷ [])
unfolding program
one_candidate = refl

-- With no price for the collateral the pair is passed over.
unpriced :
    (build_plan (record sources { usd_price_for_address = λ a. none }) cold user 7).1
    ≡ returned none
unfolding program
unpriced = refl

-- A read of the reserves that fails is passed on.
unread : (build_plan (record sources { all_user_reserves = λ _. none }) cold user 7).1 ≡ thrown
unfolding program
unread = refl

-- The theorems at this input.
usd-expected-le_example :
    calculate_usd_value
        (calculate_expected_collateral (10 ^ 18) 18 (2500 * 10 ^ 18) 6 (10 ^ 18) 500)
        6
        (10 ^ 18)
      * 10000
    ≤ calculate_usd_value (10 ^ 18) 18 (2500 * 10 ^ 18) * (10000 + 500)
usd-expected-le_example = usd-expected-le (10 ^ 18) 18 (2500 * 10 ^ 18) 6 (10 ^ 18) 500

abbrev quotes : Quotes
quotes = record {
  prices = (codes "0xwe", 2500 * 10 ^ 18) ∷ (codes "0xus", 10 ^ 18) ∷ [];
  decimals = (codes "0xwe", 18) ∷ (codes "0xus", 6) ∷ [];
  configs = (codes "0xus", record { liquidation_bonus = 10500 }) ∷ [];
}

abbrev scored_pair : PairScore
scored_pair = record {
  debt_reserve = weth_debt;
  collateral_reserve = usdc_collateral;
  score = pos (1225 * 10 ^ 17);
  oracle_score_big_int = pos (1225 * 10 ^ 17);
  debt_usd_1e18 = 2500 * 10 ^ 18;
  collateral_usd_1e18 = 2625 * 10 ^ 18;
  expected_collateral_out = 2625 * 10 ^ 6;
  debt_to_cover = 10 ^ 18;
  liquidation_bonus_bps = 500;
}

score_pairs-Scored_example :
    All
      (Scored (λ r. has_debt r ≡ true) (λ r. has_collateral r ≡ true) quotes)
      (score_pairs quotes (weth_debt ∷ []) (usdc_collateral ∷ []))
score_pairs-Scored_example =
    score_pairs-Scored (λ r. has_debt r ≡ true) (λ r. has_collateral r ≡ true) quotes
      (weth_debt ∷ []) (usdc_collateral ∷ []) (refl, tt) (refl, tt)

debt_quote : quote quotes (to_lower_case weth_debt.underlying_asset) ≡ some (2500 * 10 ^ 18, 18)
unfolding program
debt_quote = refl

one_pair : score_pair quotes weth_debt (2500 * 10 ^ 18, 18) usdc_collateral ≡ some scored_pair
unfolding program
one_pair = refl

best_pair-max_example :
    (b : PairScore) × (best_pair (scored_pair ∷ []) ≡ some b) × (scored_pair.score ≤ℤ b.score)
best_pair-max_example = best_pair-max (here refl)

build_candidate_plans-returned_example :
    (plans : List CandidatePlan) × ((build_candidate_plans sources cold user).1 ≡ returned plans)
    × (length plans ≤ top_n_pairs)
    × All (IsPlanned (user_quotes sources cold reserves)) plans
build_candidate_plans-returned_example = build_candidate_plans-returned sources cold user refl

build_plan-first_example :
    (build_plan sources cold user 7).1 ≡ returned (first_plan user 7 (expected_plan ∷ []))
build_plan-first_example = build_plan-first sources user 7 cold one_candidate
