-- ===== src/PlanCache.antt =====
-- backend-v2/src/execution/PlanCache.ts: prepared plans by user, for a limited time. Time is an
-- argument. A plan that was created in the future has age 0 here and a negative one in the source,
-- and neither is above a time to live.
pub mod Fresh
pub mod Valid
pub mod Served
use liquid_bot.Prelude.{
  ℕ, ◌+◌, ◌-◌, ◌==◌, Bool, true, false, not, ◌&&◌, Option, none, some, List, [], ◌∷◌, ltb, leb,
  if◌then◌else◌,
}
use liquid_bot.Prelude.Int.{ℤ}
use liquid_bot.Prelude.Text.{Text, text_key, to_lower_case, truthy}
use liquid_bot.JsMap
use liquid_bot.JsMap.{JsMap}
use liquid_bot.JsMap.Evict.{extreme, lower}

pub record PreparedPlan : Type 0 where
  pub user : Text
  pub debt_asset : Text
  pub collateral_asset : Text
  pub debt_to_cover : ℕ
  pub expected_collateral_out : ℕ
  pub min_out : ℕ
  pub one_inch_calldata : Text
  pub score : ℤ
  pub created_at : ℕ
  pub debt_asset_decimals : ℕ
  pub collateral_asset_decimals : ℕ
  pub liquidation_bonus_bps : ℕ

pub record Stats : Type 0 where
  pub plans_cached : ℕ
  pub expired : ℕ
  pub evicted : ℕ
  pub hits : ℕ
  pub misses : ℕ

pub record PlanCache : Type 0 where
  pub cache : JsMap Text PreparedPlan
  pub ttl_ms : ℕ
  pub max_users : ℕ
  pub stats : Stats

-- `n || d`
abbrev pub or_default : ℕ → ℕ → ℕ
or_default n d = if n == 0 then d else n

-- The constructor, from `PLAN_TTL_MS` and `PLAN_MAX_USERS`.
unfoldable pub create : ℕ → ℕ → PlanCache
create plan_ttl_ms plan_max_users = record {
  cache = [];
  ttl_ms = or_default plan_ttl_ms 15000;
  max_users = or_default plan_max_users 2000;
  stats = record { plans_cached = 0; expired = 0; evicted = 0; hits = 0; misses = 0 };
}

unfoldable pub evict_oldest : PlanCache → PlanCache
unfolding extreme
evict_oldest c = elim (extreme lower (λ (p : PreparedPlan). p.created_at) none c.cache) [
  | none ↦ c
  | some (user, _) ↦
      if truthy user
      then record c {
        cache = JsMap.delete user c.cache;
        stats = record c.stats { evicted = c.stats.evicted + 1 };
      }
      else c
]

-- The first part of `prepare`.
unfoldable pub make_space : Text → PlanCache → PlanCache
unfolding evict_oldest
make_space user_key c =
    if leb c.max_users (JsMap.size c.cache) && not (JsMap.has user_key c.cache)
    then evict_oldest c
    else c

unfoldable pub prepare : PreparedPlan → PlanCache → PlanCache
unfolding make_space
prepare plan c =
    let user_key = to_lower_case plan.user in
    let spaced = make_space user_key c in
    record spaced {
      cache = JsMap.set user_key plan spaced.cache;
      stats = record spaced.stats { plans_cached = spaced.stats.plans_cached + 1 };
    }

-- `get` for the plan that was found.
unfoldable pub serve : Text → ℕ → Option PreparedPlan → PlanCache → PlanCache × Option PreparedPlan
serve user_key now none c =
    (record c { stats = record c.stats { misses = c.stats.misses + 1 } }, none)
serve user_key now (some plan) c =
    if ltb c.ttl_ms (now - plan.created_at)
    then (
      record c {
        cache = JsMap.delete user_key c.cache;
        stats = record c.stats { expired = c.stats.expired + 1; misses = c.stats.misses + 1 };
      },
      none,
    )
    else (record c { stats = record c.stats { hits = c.stats.hits + 1 } }, some plan)

unfoldable pub get : Text → ℕ → PlanCache → PlanCache × Option PreparedPlan
unfolding serve
get user now c =
    let user_key = to_lower_case user in serve user_key now (JsMap.get user_key c.cache) c

unfoldable pub invalidate : Text → PlanCache → PlanCache
invalidate user c = record c { cache = JsMap.delete (to_lower_case user) c.cache }

unfoldable pub clear : PlanCache → PlanCache
clear c = record c { cache = [] }
