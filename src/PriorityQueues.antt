-- ===== src/PriorityQueues.antt =====
-- backend/src/execution/PriorityQueues.ts: `HotCriticalQueue` and `WarmProjectedQueue`. The two
-- classes differ in their `qualifies` and their size limit, which depend on the `Band` here.
-- Health factors and dollars are in units of 1e-18, so a threshold in basis points is exact.
-- Priorities are only compared, and are naturals. Time is an argument of each call.
pub mod Invariant
pub mod Calls
use liquid_bot.Prelude.{
  ℕ, ◌*◌, ◌^◌, Bool, true, false, not, ◌&&◌, ◌||◌, Option, none, some, List, [], ◌∷◌, ltb, leb,
  if◌then◌else◌,
}
use liquid_bot.Prelude.Text.{Text, text_key, to_lower_case, truthy}
use liquid_bot.Prelude.Sort.{sort}
use liquid_bot.JsMap
use liquid_bot.JsMap.{JsMap, values}
use liquid_bot.JsMap.Evict.{higher}
use liquid_bot.JsMap.Bounded.{bounded_set}

pub data EntryReason : Type 0 where
  hf_threshold volatility_projection price_trigger reserve_update predictive_scenario : EntryReason

pub record QueueEntry : Type 0 where
  pub user : Text
  pub health_factor : ℕ
  pub block_number : ℕ
  pub timestamp : ℕ
  pub total_collateral_usd : ℕ
  pub total_debt_usd : ℕ
  pub projected_hf : Option ℕ
  pub blocks_until_critical : Option ℕ
  pub volatility_score : Option ℕ
  pub entry_reason : EntryReason
  pub priority : ℕ
  pub predictive_scenario_name : Option Text
  pub predictive_eta_sec : Option ℕ

pub record PreSim : Type 0 where
  pub enabled : Bool
  pub hf_window : ℕ
  pub buffer_bps : ℕ

pub record PriorityQueueConfig : Type 0 where
  pub hot_hf_threshold_bps : ℕ
  pub warm_hf_threshold_bps : ℕ
  pub pre_sim : PreSim
  pub max_hot_size : ℕ
  pub max_warm_size : ℕ
  pub min_liq_exec_usd : ℕ

-- The class.
pub data Band : Type 0 where
  hot warm : Band

pub record PriorityQueue : Type 0 where
  pub queue : JsMap Text QueueEntry
  pub config : PriorityQueueConfig

abbrev pub one : ℕ
one = 10 ^ 18

-- `bps / 10000`
abbrev pub of_bps : ℕ → ℕ
of_bps bps = bps * 10 ^ 14

-- Both projections are there, below 1 and at most two blocks ahead.
unfoldable pub projected_critical : Option ℕ → Option ℕ → Bool
projected_critical (some hf) (some blocks) = ltb hf one && leb blocks 2
projected_critical (some hf) none = false
projected_critical none blocks = false

unfoldable pub hot_qualifies : PriorityQueueConfig → QueueEntry → Bool
unfolding projected_critical
hot_qualifies c entry =
    leb entry.health_factor (of_bps c.hot_hf_threshold_bps)
    || (c.pre_sim.enabled && projected_critical entry.projected_hf entry.blocks_until_critical)

unfoldable pub warm_qualifies : PriorityQueueConfig → QueueEntry → Bool
warm_qualifies c entry =
    ltb (of_bps c.hot_hf_threshold_bps) entry.health_factor
    && leb entry.health_factor (of_bps c.warm_hf_threshold_bps)

unfoldable pub qualifies : Band → PriorityQueueConfig → QueueEntry → Bool
unfolding hot_qualifies warm_qualifies
qualifies hot c entry = hot_qualifies c entry
qualifies warm c entry = warm_qualifies c entry

abbrev pub max_size : Band → PriorityQueueConfig → ℕ
max_size hot c = c.max_hot_size
max_size warm c = c.max_warm_size

-- `{ ...entry, user: normalized, timestamp: Date.now() }`
abbrev pub stored : ℕ → QueueEntry → QueueEntry
stored now entry = record entry { user = to_lower_case entry.user; timestamp = now }

-- `evictLowestPriority` is the eviction of `bounded_set`: the first entry with the greatest number.
unfoldable pub upsert : Band → ℕ → QueueEntry → PriorityQueue → PriorityQueue × Bool
unfolding qualifies
upsert band now entry q =
    if not (qualifies band q.config entry)
    then (q, false)
    else if ltb entry.total_debt_usd q.config.min_liq_exec_usd
    then (q, false)
    else (
      record q {
        queue =
            bounded_set higher (λ e. e.priority) truthy (max_size band q.config)
              (to_lower_case entry.user) (stored now entry) q.queue;
      },
      true,
    )

unfoldable pub remove : Text → PriorityQueue → PriorityQueue × Bool
remove user q = (
  record q { queue = JsMap.delete (to_lower_case user) q.queue },
  JsMap.has (to_lower_case user) q.queue,
)

unfoldable pub get_all : PriorityQueue → List QueueEntry
get_all q = sort (λ a b. ltb b.priority a.priority) (values q.queue)

unfoldable pub get : Text → PriorityQueue → Option QueueEntry
get user q = JsMap.get (to_lower_case user) q.queue

unfoldable pub has : Text → PriorityQueue → Bool
has user q = JsMap.has (to_lower_case user) q.queue

unfoldable pub size : PriorityQueue → ℕ
size q = JsMap.size q.queue

unfoldable pub clear : PriorityQueue → PriorityQueue
clear q = record q { queue = [] }
