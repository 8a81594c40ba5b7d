-- ===== src/PredictiveBudgetTracker.antt =====
-- backend/src/predictive/PredictiveBudgetTracker.ts: the budgets of predictive evaluation. Dollars
-- are whole numbers of one small unit, and health factors of units of 1e-18, where the source has
-- floating-point numbers. The comparator of the sort is not transitive: the order of users within
-- 0.001 of each other depends on the engine. Metrics and log lines are left out.
pub mod Caps
pub mod Overlap
use liquid_bot.Prelude.{
  ℕ, suc, ◌+◌, ◌-◌, ◌*◌, ◌^◌, Bool, true, false, ◌&&◌, ◌||◌, Option, none, some, List, [], ◌∷◌,
  length, take, ltb, leb, min, if◌then◌else◌,
}
use liquid_bot.Prelude.Int.{ℤ, pos, ◌-ℤ◌}
use liquid_bot.Prelude.Sort.{sort}
use liquid_bot.Prelude.Text.{Text, text_key, truthy}
use liquid_bot.JsMap
use liquid_bot.JsMap.{JsMap}

pub record BudgetConfig : Type 0 where
  pub max_users_per_tick : ℕ
  pub max_ticks_per_min : ℕ
  pub rpc_budget_usd_per_hour : ℕ
  pub max_users_per_signal_per_asset : ℕ
  pub cost_per_hf_read_usd : ℕ

pub data RefusalReason : Type 0 where
  per_tick_cap_exceeded per_minute_rate_exceeded hourly_budget_exceeded : RefusalReason
  per_asset_cap_exceeded : RefusalReason

-- The check's result; a refusal has what remains.
pub data BudgetCheckResult : Type 0 where
  allowed : BudgetCheckResult
  refused : RefusalReason → ℤ → BudgetCheckResult

pub record BudgetTracker : Type 0 where
  pub current_tick_users_evaluated : ℕ
  pub tick_start_time : ℕ
  pub ticks_this_minute : ℕ
  pub minute_start_time : ℕ
  pub spend_this_hour_usd : ℕ
  pub hour_start_time : ℕ
  pub users_per_asset_this_signal : JsMap Text ℕ

unfoldable pub create_tracker : ℕ → BudgetTracker
create_tracker now = record {
  current_tick_users_evaluated = 0;
  tick_start_time = 0;
  ticks_this_minute = 0;
  minute_start_time = now;
  spend_this_hour_usd = 0;
  hour_start_time = now;
  users_per_asset_this_signal = [];
}

abbrev pub check_minute : ℕ → BudgetTracker → BudgetTracker
check_minute now t =
    if leb 60000 (now - t.minute_start_time)
    then record t { ticks_this_minute = 0; minute_start_time = now }
    else t

abbrev pub check_hour : ℕ → BudgetTracker → BudgetTracker
check_hour now t =
    if leb 3600000 (now - t.hour_start_time)
    then record t { spend_this_hour_usd = 0; hour_start_time = now }
    else t

unfoldable pub start_tick : ℕ → BudgetTracker → BudgetTracker
start_tick now t =
    let fresh : BudgetTracker = record t {
      current_tick_users_evaluated = 0;
      tick_start_time = now;
    } in
    let checked = check_hour now (check_minute now fresh) in
    record checked { ticks_this_minute = checked.ticks_this_minute + 1 }

-- `map.get(asset) ?? 0`
abbrev pub count_or_zero : Option ℕ → ℕ
count_or_zero none = 0
count_or_zero (some n) = n

unfoldable pub asset_count : Text → BudgetTracker → ℕ
asset_count asset t = count_or_zero (JsMap.get asset t.users_per_asset_this_signal)

-- The cap of an asset, if one is given.
unfoldable pub check_asset : BudgetConfig → ℕ → Option Text → BudgetTracker → BudgetCheckResult
unfolding asset_count
check_asset c count none t = allowed
check_asset c count (some asset) t =
    if truthy asset && ltb c.max_users_per_signal_per_asset (asset_count asset t + count)
    then refused per_asset_cap_exceeded
        (pos c.max_users_per_signal_per_asset -ℤ pos (asset_count asset t))
    else allowed

unfoldable pub can_evaluate_users :
    BudgetConfig → ℕ → Option Text → BudgetTracker → BudgetCheckResult
unfolding check_asset
can_evaluate_users c count asset t =
    if ltb c.max_users_per_tick (t.current_tick_users_evaluated + count)
    then refused per_tick_cap_exceeded
        (pos c.max_users_per_tick -ℤ pos t.current_tick_users_evaluated)
    else if leb c.max_ticks_per_min t.ticks_this_minute
    then refused per_minute_rate_exceeded (pos 0)
    else if ltb c.rpc_budget_usd_per_hour (t.spend_this_hour_usd + count * c.cost_per_hf_read_usd)
    then refused hourly_budget_exceeded (pos c.rpc_budget_usd_per_hour -ℤ pos t.spend_this_hour_usd)
    else check_asset c count asset t

unfoldable pub count_asset : ℕ → Option Text → BudgetTracker → BudgetTracker
unfolding asset_count
count_asset count none t = t
count_asset count (some asset) t =
    if truthy asset
    then record t {
      users_per_asset_this_signal =
          JsMap.set asset (asset_count asset t + count) t.users_per_asset_this_signal;
    }
    else t

unfoldable pub record_users_evaluated :
    BudgetConfig → ℕ → Option Text → BudgetTracker → BudgetTracker
unfolding count_asset
record_users_evaluated c count asset t =
    let counted =
      count_asset count asset
        (record t { current_tick_users_evaluated = t.current_tick_users_evaluated + count }) in
    record counted {
      spend_this_hour_usd = counted.spend_this_hour_usd + count * c.cost_per_hf_read_usd;
    }

unfoldable pub reset_signal_counters : BudgetTracker → BudgetTracker
reset_signal_counters t = record t { users_per_asset_this_signal = [] }

pub record Status : Type 0 where
  pub users_this_tick : ℕ
  pub ticks_this_minute : ℕ
  pub spend_this_hour_usd : ℕ
  pub remaining_ticks_this_minute : ℕ
  pub remaining_budget_this_hour_usd : ℕ

unfoldable pub get_status : BudgetConfig → BudgetTracker → Status
get_status c t = record {
  users_this_tick = t.current_tick_users_evaluated;
  ticks_this_minute = t.ticks_this_minute;
  spend_this_hour_usd = t.spend_this_hour_usd;
  remaining_ticks_this_minute = c.max_ticks_per_min - t.ticks_this_minute;
  remaining_budget_this_hour_usd = c.rpc_budget_usd_per_hour - t.spend_this_hour_usd;
}

-- Of a user the sort reads two fields.
pub record RatedUser : Type 0 where
  pub address : Text
  pub hf : Option ℕ
  pub debt_usd : Option ℕ

abbrev pub hf_or_two : RatedUser → ℕ
hf_or_two u = elim u.hf [ none ↦ 2 * 10 ^ 18 | some hf ↦ hf ]

abbrev pub debt_or_zero : RatedUser → ℕ
debt_or_zero u = count_or_zero u.debt_usd

-- The comparator puts `a` behind `b`.
unfoldable pub is_behind : RatedUser → RatedUser → Bool
is_behind a b =
    if ltb (10 ^ 15) (hf_or_two a - hf_or_two b + (hf_or_two b - hf_or_two a))
    then ltb (hf_or_two b) (hf_or_two a)
    else ltb (debt_or_zero a) (debt_or_zero b)

-- How many users there is room for; 0 also where the source has a negative number.
unfoldable pub room : BudgetConfig → Option Text → BudgetTracker → ℕ
unfolding asset_count
room c none t = c.max_users_per_tick - t.current_tick_users_evaluated
room c (some asset) t =
    let by_tick = c.max_users_per_tick - t.current_tick_users_evaluated in
    if truthy asset
    then min by_tick (c.max_users_per_signal_per_asset - asset_count asset t)
    else by_tick

abbrev pub is_allowed : BudgetCheckResult → Bool
is_allowed allowed = true
is_allowed (refused reason remaining) = false

unfoldable pub downsample_to_fit :
    BudgetConfig → List RatedUser → Option Text → BudgetTracker → List RatedUser
unfolding can_evaluate_users room is_behind
downsample_to_fit c users asset t =
    if is_allowed (can_evaluate_users c (length users) asset t)
    then users
    else take (room c asset t) (sort is_behind users)
