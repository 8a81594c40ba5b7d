-- ===== src/Tests/Predictive.antt =====
-- The predictive loop and the near band on small inputs.
use liquid_bot.Prelude.{
  All, List, [], arith, false, keep, length, map, none, refl, some, true, ◌*◌, ◌+◌, ◌^◌, ◌∷◌, ◌≡◌,
  ◌⊎◌,
}
use liquid_bot.Prelude.Text.{Text, codes, text_key, text_eq, to_lower_case, to_upper_case}
use liquid_bot.Prelude.Result.{ok}
use liquid_bot.JsMap
use liquid_bot.JsMap.{includes}
use liquid_bot.UserIndex.{get_users_for_token}
use liquid_bot.ActiveRiskSet.{finite}
use liquid_bot.HealthFactorChecker.{HealthFactorResult, decoded, check_single}
use liquid_bot.PlanCache
use liquid_bot.PredictiveLoop.{
  PredictiveLoop, Config, World, SwapQuote, new_loop, set_execution_components, prepared_plan,
  rescore_user, take_turn, visit_users, affected_users, handle_price_update, PriceUpdate,
}
use liquid_bot.PredictiveLoop.Prepares.{Justified, rescore_user-Justified, rescore_user-serves}
use liquid_bot.PredictiveLoop.Turns.{
  Event, begins, turns, rescores, read_times, Spaced, read_times-Spaced,
}
use liquid_bot.NearBandFilter.{UserSnapshot, NearBandFilterConfig, should_check, filter}
use liquid_bot.NearBandFilter.Range.{IsInRange, filter-Keeps}
use liquid_bot.Tests.Planner.{sources, cold, user, expected_plan, one_candidate}

abbrev config : Config
config = record {
  symbol_to_address_json = none;
  min_pct_move_default = none;
  min_rescore_interval_ms = some 1000;
  prepare_hf = none;
  urgent_hf = none;
  min_pct_move_json = [];
}

abbrev weth : Text
weth = codes "0x4200000000000000000000000000000000000006"

-- The price of WETH is known, and one user has WETH.
abbrev loop : PredictiveLoop
loop =
    record (set_execution_components cold (
      new_loop config (PlanCache.create 0 0)
        (record {
          token_to_users = (weth, (user, tt) ∷ []) ∷ [];
          user_to_tokens = (user, (weth, tt) ∷ []) ∷ [];
        })
        (record { candidates = []; has_user_index = false; has_data_provider = false }))) {
          last_prices = (weth, 2500 * 10 ^ 18) ∷ [];
        }

abbrev quote : SwapQuote
quote = record { calldata = codes "0x12"; min_out = 1100 }

abbrev near : HealthFactorResult
near = record {
  address = user;
  health_factor = finite (101 * 10 ^ 16);
  total_debt_base = 500;
  total_collateral_base = 600;
  debt_usd_1e18 = 500 * 10 ^ 18;
}

abbrev world : World
world = record {
  base_currency = record { is_usd = true; decimals = 0 };
  settings = record {
    min_debt_usd = 50;
    hf_threshold_start = 110 * 10 ^ 16;
    index_refresh_ms = 1000;
  };
  health = record {
    aggregate = λ users. ok (
        map
          (λ u. decoded (record {
            total_collateral_base = 600;
            total_debt_base = 500;
            health_factor_raw = 101 * 10 ^ 16;
          }))
          users);
    eth_usd_price = λ u. ok 1;
  };
  sources = sources;
  swap = λ from to amount slippage. ok quote;
  time = λ u. 5007;
}

near_user : check_single world.base_currency world.health user ≡ some (ok (some near))
unfolding check_single
near_user = refl

rescore_user-serves_example :
    (PlanCache.get user 9000 (rescore_user world user loop).0.plan_cache).1
    ≡ some (prepared_plan user 5007 expected_plan quote)
unfolding new_loop set_execution_components PlanCache.create
rescore_user-serves_example =
    rescore_user-serves world user loop near expected_plan [] quote 9000 refl near_user refl
      one_candidate refl (omega arith)

rescore_user-Justified_example :
    ((rescore_user world user loop).0.plan_cache ≡ loop.plan_cache)
    ⊎ Justified world user loop (rescore_user world user loop).0.plan_cache
rescore_user-Justified_example = rescore_user-Justified world user loop

abbrev rise : PriceUpdate
rise = record { symbol = codes "weth"; price = 2600 * 10 ^ 18 }

affected_by_rise : (affected_users rise loop).1 ≡ user ∷ []
unfolding affected_users new_loop JsMap.get set_execution_components text_eq to_upper_case
    to_lower_case get_users_for_token
affected_by_rise = refl

-- The default addresses have keys that are not in upper case, so that cbETH is not found.
affected_by_cb_eth : (affected_users (record { symbol = codes "cbETH"; price = 1 }) loop).1 ≡ []
unfolding affected_users new_loop JsMap.get set_execution_components text_eq to_upper_case
    to_lower_case get_users_for_token
affected_by_cb_eth = refl

read_by_rise : (handle_price_update world 5000 rise loop).1.visited ≡ user ∷ []
unfolding handle_price_update affected_users new_loop JsMap.get set_execution_components text_eq
    to_upper_case to_lower_case get_users_for_token visit_users rescore_user check_single
read_by_rise = refl

-- Two calls that overlap: the later one takes its turn first, and the earlier one is refused. The
-- last call comes as soon as the limit has passed.
abbrev overlapping : List Event
overlapping =
    begins rise
    ∷ turns 5200 user
    ∷ begins (record { symbol = codes "USDC"; price = 7 })
    ∷ turns 5000 user
    ∷ rescores world user
    ∷ turns 6199 user
    ∷ turns 6200 user
    ∷ []

two_reads :
    read_times user
      (turns 5200 user ∷ turns 5000 user ∷ turns 6199 user ∷ turns 6200 user ∷ [])
      loop
    ≡ 5200 ∷ 6200 ∷ []
unfolding read_times take_turn new_loop JsMap.get JsMap.set set_execution_components text_eq
two_reads = refl

read_times-Spaced_example : Spaced loop.rescore_rate_limit_ms (read_times user overlapping loop)
unfolding new_loop set_execution_components
read_times-Spaced_example =
    read_times-Spaced user overlapping loop (omega arith)
      (tt, (omega arith, (tt, (omega arith, (tt, (omega arith, (omega arith, tt)))))))

abbrev band : NearBandFilterConfig
band = record { near_band_bps = 30; min_debt_usd = 10; hf_pred_critical = 10008 * 10 ^ 14 }

-- Far from the band, but projected to be critical.
abbrev projected : UserSnapshot
projected = record { hf = 5 * 10 ^ 18; debt_usd = some 10; projected_hf = some 3 }

abbrev snapshots : List UserSnapshot
snapshots =
    projected
    ∷ record { hf = 2 * 10 ^ 18; debt_usd = none; projected_hf = none }
    ∷ record { hf = 9 * 10 ^ 17; debt_usd = none; projected_hf = none }
    ∷ record { hf = 10 ^ 18; debt_usd = some 9; projected_hf = none }
    ∷ []

skipped_two : (filter band snapshots).skipped ≡ 2
unfolding filter
skipped_two = refl

filter-Keeps_example :
    ((filter band snapshots).kept ≡ keep (should_check band) snapshots)
    × ((filter band snapshots).skipped + length (filter band snapshots).kept ≡ length snapshots)
    × All (IsInRange (filter band snapshots)) (filter band snapshots).kept
filter-Keeps_example = filter-Keeps band snapshots
