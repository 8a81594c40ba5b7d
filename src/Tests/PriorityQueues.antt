-- ===== src/Tests/PriorityQueues.antt =====
-- Two users in queues of one entry each.
use liquid_bot.Prelude.{◌≡◌, refl, true, false, arith, none, [], ◌∷◌, All}
use liquid_bot.Prelude.Text.{codes, text_eq, text_key, to_lower_case, lower_unit}
use liquid_bot.Prelude.Sort.{insert, sort}
use liquid_bot.JsMap
use liquid_bot.JsMap.{values}
use liquid_bot.JsMap.Evict.{better, extreme}
use liquid_bot.JsMap.Bounded.{evict, make_room, bounded_set}
use liquid_bot.PriorityQueues.{
  QueueEntry, hf_threshold, PriorityQueueConfig, Band, hot, warm, PriorityQueue, one,
  projected_critical, hot_qualifies, warm_qualifies, qualifies, stored, upsert, remove, get_all,
  get, has, size, clear,
}
use liquid_bot.PriorityQueues.Invariant.{IsValid}
use liquid_bot.PriorityQueues.Calls.{upserts, removes, run, step, run-IsValid}

program : Unit {0}
unfolding text_eq to_lower_case lower_unit insert sort JsMap.get JsMap.has JsMap.set JsMap.delete
    better extreme evict make_room bounded_set projected_critical hot_qualifies warm_qualifies
    qualifies upsert remove get_all get has size clear run step
program = tt

abbrev config : PriorityQueueConfig
config = record {
  hot_hf_threshold_bps = 10012;
  warm_hf_threshold_bps = 10300;
  pre_sim = record { enabled = false; hf_window = 10100; buffer_bps = 50 };
  max_hot_size = 1;
  max_warm_size = 1;
  min_liq_exec_usd = 50;
}

abbrev empty : PriorityQueue
empty = record { queue = []; config = config }

abbrev alice : QueueEntry
alice = record {
  user = codes "0xA1";
  health_factor = one;
  block_number = 7;
  timestamp = 0;
  total_collateral_usd = 200;
  total_debt_usd = 100;
  projected_hf = none;
  blocks_until_critical = none;
  volatility_score = none;
  entry_reason = hf_threshold;
  priority = 5;
  predictive_scenario_name = none;
  predictive_eta_sec = none;
}

abbrev bob : QueueEntry
bob = record alice { user = codes "0xb0"; priority = 9 }

abbrev with_alice : PriorityQueue
with_alice = record empty { queue = (codes "0xa1", stored 3 alice) ∷ [] }

first_upsert : upsert hot 3 alice empty ≡ (with_alice, true)
unfolding program
first_upsert = refl

-- A full queue makes room even for an entry with a greater priority number.
second_upsert : get (codes "0xa1") (upsert hot 4 bob with_alice).0 ≡ none
unfolding program
second_upsert = refl

small_debt : (upsert hot 3 (record alice { total_debt_usd = 49 }) empty).1 ≡ false
unfolding program
small_debt = refl

ends : All (λ _. Unit {0}) (run hot (upserts 3 alice ∷ removes (codes "0XA1") ∷ []) empty).queue
unfolding program
ends = tt

empty-IsValid : (band : Band) → IsValid band empty
empty-IsValid hot = record { distinct = tt; bounded = omega arith; placed = tt }
empty-IsValid warm = record { distinct = tt; bounded = omega arith; placed = tt }

others : text_key.beq (to_lower_case bob.user) (to_lower_case alice.user) ≡ false
unfolding program
others = refl

-- The theorems at this input.
run-IsValid_example : IsValid hot (run hot (upserts 3 alice ∷ upserts 4 bob ∷ []) empty)
run-IsValid_example =
    run-IsValid hot (upserts 3 alice ∷ upserts 4 bob ∷ []) empty (refl, (refl, tt))
      (empty-IsValid hot)

one_step-IsValid : IsValid hot (run hot (upserts 3 alice ∷ []) empty)
one_step-IsValid = run-IsValid hot (upserts 3 alice ∷ []) empty (refl, tt) (empty-IsValid hot)
