-- ===== src/PredictiveLoop.antt =====
-- backend-v2/src/predictive/PredictiveLoop.ts: a price that moves far enough has the health factors
-- of the users of its token read again, and plans prepared for those near liquidation. Prices,
-- thresholds and health factors are whole numbers of units of 1e-18, and a rate limit is not 0. A
-- call is one step of state here, and `Turns` cuts it where it waits. Log lines are left out. An entry of the thresholds is a number.
pub mod Prepares
pub mod Limit
pub mod Turns
use liquid_bot.Prelude.{
  ℕ, ◌+◌, ◌-◌, ◌*◌, ◌^◌, Bool, true, false, not, ◌&&◌, Option, none, some, List, [], ◌∷◌, ◌++◌, ltb,
  ◌==◌, if◌then◌else◌, or_number,
}
use liquid_bot.Prelude.Text.{Text, codes, text_key, truthy, to_lower_case, to_upper_case}
use liquid_bot.Prelude.Result.{Result, ok, err}
use liquid_bot.JsMap
use liquid_bot.JsMap.{JsMap, JsSet}
use liquid_bot.UserIndex.{UserIndex, get_users_for_token}
use liquid_bot.ActiveRiskSet.{HealthFactor, finite, infinity, Settings, ActiveRiskSet, update_hf}
use liquid_bot.HealthFactorChecker.{HealthFactorResult, BaseCurrency, Source, check_single}
use liquid_bot.PlanCache
use liquid_bot.PlanCache.{PlanCache, PreparedPlan}
use liquid_bot.Planner.Types.{CandidatePlan, Sources, Caches}
use liquid_bot.Planner.Plans
use liquid_bot.Planner.Plans.{returned, thrown, build_candidate_plans}

abbrev pub default_symbol_to_address : JsMap Text Text
default_symbol_to_address =
    (codes "ETH", codes "0x0000000000000000000000000000000000000000")
    ∷ (codes "WETH", codes "0x4200000000000000000000000000000000000006")
    ∷ (codes "USDC", codes "0x833589fcd6edb6e08f4c7c32d4f71b54bda02913")
    ∷ (codes "WBTC", codes "0x0555e30da8f98308edb960aa94c0db47230d2b9c")
    ∷ (codes "cbETH", codes "0x2ae3f1ec7f1f5012cfeab0185bfc7aa3cf0dec22")
    ∷ (codes "DAI", codes "0x50c5725949a6f0c72e6c4a641f24049a917db0cb")
    ∷ (codes "USDbC", codes "0xd9aaec86b65d86f6a7b5b1b0c42ffa531710b6ca")
    ∷ []

pub record PredictiveStats : Type 0 where
  pub pyth_ticks_seen : ℕ
  pub pyth_triggers : ℕ
  pub affected_users_total : ℕ
  pub rescored_users : ℕ
  pub plans_prepared : ℕ

-- `has_components`: the planner, whose caches are `planner_caches`, and the swap builder are set.
pub record PredictiveLoop : Type 0 where
  pub user_index : UserIndex
  pub risk_set : ActiveRiskSet
  pub plan_cache : PlanCache
  pub has_components : Bool
  pub planner_caches : Caches
  pub symbol_to_address : JsMap Text Text
  pub last_prices : JsMap Text ℕ
  pub last_rescore_time : JsMap Text ℕ
  pub token_thresholds : JsMap Text ℕ
  pub default_threshold : ℕ
  pub rescore_rate_limit_ms : ℕ
  pub prepare_hf_threshold : ℕ
  pub urgent_hf_threshold : ℕ
  pub unknown_symbols : JsSet Text
  pub stats : PredictiveStats

-- What is read of the configuration.
pub record Config : Type 0 where
  pub symbol_to_address_json : Option (JsMap Text Text)
  pub min_pct_move_default : Option ℕ
  pub min_rescore_interval_ms : Option ℕ
  pub prepare_hf : Option ℕ
  pub urgent_hf : Option ℕ
  pub min_pct_move_json : List (Text × ℕ)

abbrev pub or_default_addresses : Option (JsMap Text Text) → JsMap Text Text
or_default_addresses none = default_symbol_to_address
or_default_addresses (some m) = m

abbrev pub set_thresholds : List (Text × ℕ) → JsMap Text ℕ → JsMap Text ℕ
set_thresholds [] m = m
set_thresholds ((token, threshold) ∷ entries) m =
    set_thresholds entries (JsMap.set (to_lower_case token) threshold m)

unfoldable pub new_loop : Config → PlanCache → UserIndex → ActiveRiskSet → PredictiveLoop
new_loop c plans index risk = record {
  user_index = index;
  risk_set = risk;
  plan_cache = plans;
  has_components = false;
  planner_caches = record { reserve_config_cache = []; token_decimals_cache = [] };
  symbol_to_address = or_default_addresses c.symbol_to_address_json;
  last_prices = [];
  last_rescore_time = [];
  token_thresholds = set_thresholds c.min_pct_move_json [];
  default_threshold = or_number c.min_pct_move_default (5 * 10 ^ 14);
  rescore_rate_limit_ms = or_number c.min_rescore_interval_ms 500;
  prepare_hf_threshold = or_number c.prepare_hf (102 * 10 ^ 16);
  urgent_hf_threshold = or_number c.urgent_hf (1005 * 10 ^ 15);
  unknown_symbols = [];
  stats = record {
    pyth_ticks_seen = 0;
    pyth_triggers = 0;
    affected_users_total = 0;
    rescored_users = 0;
    plans_prepared = 0;
  };
}

unfoldable pub set_execution_components : Caches → PredictiveLoop → PredictiveLoop
set_execution_components caches l = record l { has_components = true; planner_caches = caches }

pub record SwapQuote : Type 0 where
  pub calldata : Text
  pub min_out : ℕ

-- What answers during a call. `swap` is `getSwapCalldata` for two tokens, an amount and a slippage,
-- and fails also when the least output is not a number; `time` is the clock at the turn of a user.
pub record World : Type 0 where
  pub base_currency : BaseCurrency
  pub settings : Settings
  pub health : Source
  pub sources : Sources
  pub swap : Text → Text → ℕ → ℕ → Result SwapQuote
  pub time : Text → ℕ

abbrev pub prepared_plan : Text → ℕ → CandidatePlan → SwapQuote → PreparedPlan
prepared_plan user now c q = record {
  user = user;
  debt_asset = c.debt_asset;
  collateral_asset = c.collateral_asset;
  debt_to_cover = c.debt_to_cover;
  expected_collateral_out = c.expected_collateral_out;
  min_out = q.min_out;
  one_inch_calldata = q.calldata;
  score = c.oracle_score;
  created_at = now;
  debt_asset_decimals = c.debt_asset_decimals;
  collateral_asset_decimals = c.collateral_asset_decimals;
  liquidation_bonus_bps = c.liquidation_bonus_bps;
}

abbrev pub quote_for : World → CandidatePlan → Result SwapQuote
quote_for w c = w.swap c.collateral_asset c.debt_asset c.expected_collateral_out 100

-- `preparePlan` from the candidates on.
unfoldable pub prepare_first :
    World → Text → Plans.Result (List CandidatePlan) → PredictiveLoop → PredictiveLoop
prepare_first w user thrown l = l
prepare_first w user (returned []) l = l
prepare_first w user (returned (c ∷ cs)) l = elim (quote_for w c) [
  | err message ↦ l
  | ok q ↦ record l {
    plan_cache = PlanCache.prepare (prepared_plan user (w.time user) c q) l.plan_cache;
    stats = record l.stats { plans_prepared = l.stats.plans_prepared + 1 };
  }
]

unfoldable pub prepare_plan : World → Text → PredictiveLoop → PredictiveLoop
unfolding prepare_first
prepare_plan w user l =
    if l.has_components
    then prepare_first w user (build_candidate_plans w.sources l.planner_caches user).1
        (record l { planner_caches = (build_candidate_plans w.sources l.planner_caches user).0 })
    else l

-- `healthFactor < threshold && healthFactor > 0`
abbrev pub needs_plan : ℕ → HealthFactor → Bool
needs_plan threshold infinity = false
needs_plan threshold (finite h) = ltb h threshold && ltb 0 h

-- `rescoreUser` from a result on, with the users whose tokens the risk set reads again.
unfoldable pub after_result :
    World → Text → HealthFactorResult → PredictiveLoop → PredictiveLoop × List Text
unfolding prepare_plan
after_result w user r l =
    let (risk, started) =
      update_hf w.settings (w.time user) user r.health_factor r.debt_usd_1e18
        r.total_collateral_base l.risk_set in
    let updated : PredictiveLoop = record l { risk_set = risk } in
    (
      if needs_plan updated.prepare_hf_threshold r.health_factor
          then prepare_plan w user updated
          else updated,
      started,
    )

-- What the loop over the users did: those rescored, how many without an error, and the users whose
-- tokens are read again.
pub record Rescan : Type 0 where
  pub visited : List Text
  pub completed : ℕ
  pub refreshed : List Text

abbrev pub rescan : List Text → ℕ → List Text → Rescan
rescan visited completed refreshed = record {
  visited = visited;
  completed = completed;
  refreshed = refreshed;
}

-- A check of one user takes one batch, so that its fuel does not run out.
unfoldable pub rescore_user : World → Text → PredictiveLoop → PredictiveLoop × Rescan
unfolding after_result check_single
rescore_user w user l = elim (check_single w.base_currency w.health user) [
  | none ↦ (l, rescan (user ∷ []) 0 [])
  | some (err message) ↦ (l, rescan (user ∷ []) 0 [])
  | some (ok none) ↦ (l, rescan (user ∷ []) 1 [])
  | some (ok (some r)) ↦
      let (after, started) = after_result w user r l in (after, rescan (user ∷ []) 1 started)
]

abbrev pub is_too_soon : ℕ → ℕ → Option ℕ → Bool
is_too_soon now limit none = false
is_too_soon now limit (some last) = not (last == 0) && ltb (now - last) limit

abbrev pub mark : ℕ → Text → PredictiveLoop → PredictiveLoop
mark now user l = record l { last_rescore_time = JsMap.set user now l.last_rescore_time }

-- The part of a round before its wait: the check of the rate limit, and the mark. `now` is read once,
-- before the loop, so that it is the time at which the update came to its users.
unfoldable pub take_turn : ℕ → Text → PredictiveLoop → PredictiveLoop × Bool
take_turn now user l =
    if is_too_soon now l.rescore_rate_limit_ms (JsMap.get user l.last_rescore_time)
    then (l, false)
    else (mark now user l, true)

-- One round of the loop over the users.
unfoldable pub visit_user : World → ℕ → Text → PredictiveLoop → PredictiveLoop × Rescan
unfolding take_turn rescore_user
visit_user w now user l =
    let (next, due) = take_turn now user l in
    if due then rescore_user w user next else (next, rescan [] 0 [])

abbrev pub join_rescans : Rescan → Rescan → Rescan
join_rescans a b =
    rescan (a.visited ++ b.visited) (a.completed + b.completed) (a.refreshed ++ b.refreshed)

unfoldable pub visit_users : World → ℕ → List Text → PredictiveLoop → PredictiveLoop × Rescan
unfolding visit_user
visit_users w now [] l = (l, rescan [] 0 [])
visit_users w now (user ∷ users) l =
    let (next, one) = visit_user w now user l in
    let (final, rest) = visit_users w now users next in (final, join_rescans one rest)

pub record PriceUpdate : Type 0 where
  pub symbol : Text
  pub price : ℕ

-- `pctMove < threshold`, multiplied by the last price. From a last price of 0 every move is far.
abbrev pub is_small_move : ℕ → ℕ → ℕ → Bool
is_small_move threshold last price =
    ltb (((price - last) + (last - price)) * 10 ^ 18) (threshold * last)

unfoldable pub users_after_move : Text → ℕ → Option ℕ → PredictiveLoop → PredictiveLoop × List Text
users_after_move token price none l = (l, [])
users_after_move token price (some last) l =
    if is_small_move (or_number (JsMap.get token l.token_thresholds) l.default_threshold) last price
    then (l, [])
    else let users = JsMap.keys (get_users_for_token token l.user_index) in
      (
        record l {
          stats = record l.stats {
            pyth_triggers = l.stats.pyth_triggers + 1;
            affected_users_total =
                l.stats.affected_users_total + JsMap.size (get_users_for_token token l.user_index);
          };
        },
        users,
      )

-- The address of a symbol, unless there is none or it is the empty string.
abbrev pub known_address : Option Text → Option Text
known_address none = none
known_address (some address) = if truthy address then some address else none

-- `handlePriceUpdate` up to the loop over the users, with the users.
unfoldable pub affected_users : PriceUpdate → PredictiveLoop → PredictiveLoop × List Text
unfolding users_after_move
affected_users update l =
    let seen : PredictiveLoop = record l {
      stats = record l.stats { pyth_ticks_seen = l.stats.pyth_ticks_seen + 1 };
    } in
    elim (known_address (JsMap.get (to_upper_case update.symbol) l.symbol_to_address)) [
      | none ↦ (record seen { unknown_symbols = JsMap.add update.symbol seen.unknown_symbols }, [])
      | some address ↦
          let token = to_lower_case address in
          users_after_move token update.price (JsMap.get token l.last_prices)
            (record seen { last_prices = JsMap.set token update.price seen.last_prices })
    ]

-- A whole call that no other one interrupts; `Turns` has the rounds of calls that overlap. The clock of
-- `World` goes on while it runs, and `now` does not.
unfoldable pub handle_price_update :
    World → ℕ → PriceUpdate → PredictiveLoop → PredictiveLoop × Rescan
unfolding affected_users visit_users
handle_price_update w now update l =
    let (ready, users) = affected_users update l in
    let (final, done) = visit_users w now users ready in
    (
      record final {
        stats = record final.stats { rescored_users = final.stats.rescored_users + done.completed };
      },
      done,
    )
