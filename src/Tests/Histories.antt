-- ===== src/Tests/Histories.antt =====
-- The dirty queue, the attempt history and the plan cache.
use liquid_bot.Prelude.{◌-◌, ◌≤◌, ◌≡◌, refl, true, none, some, List, [], ◌∷◌, ◌++◌, arith}
use liquid_bot.Prelude.Int.{pos}
use liquid_bot.Prelude.Text.{codes, text_eq, text_key, to_lower_case, lower_unit}
use liquid_bot.JsMap
use liquid_bot.JsMap.{keys}
use liquid_bot.JsMap.Evict.{better, extreme}
use liquid_bot.DirtyQueue
use liquid_bot.DirtyQueue.{DirtyQueue, mark_dirty, take_loop, take_batch}
use liquid_bot.DirtyQueue.Order.{Call, marks, takes, run, newly, IsValid, run-fifo}
use liquid_bot.AttemptHistory
use liquid_bot.AttemptHistory.{
  AttemptRecord, sent, pending, max_entries_per_user, last, history_or_empty, push, record_attempt,
  get_history, get_last_attempt, get_pending_attempt, has_pending, pending_attempt,
}
use liquid_bot.AttemptHistory.Log
use liquid_bot.AttemptHistory.Log.{records, log, last_n, get_history-log, get_pending_attempt-log}
use liquid_bot.PlanCache
use liquid_bot.PlanCache.{
  PreparedPlan, PlanCache, or_default, evict_oldest, make_space, prepare, serve, invalidate,
}
use liquid_bot.PlanCache.Fresh
use liquid_bot.PlanCache.Fresh.{prepares, gets}
use liquid_bot.PlanCache.Served.{Served, get-Served}

program : Unit {0}
unfolding text_eq to_lower_case lower_unit JsMap.get JsMap.has JsMap.set JsMap.delete better extreme
    DirtyQueue.size mark_dirty take_loop take_batch run newly last history_or_empty push
    record_attempt get_history get_last_attempt get_pending_attempt has_pending pending_attempt
    AttemptHistory.clear AttemptHistory.Log.after_calls log evict_oldest make_space prepare serve
    PlanCache.get invalidate PlanCache.clear PlanCache.create PlanCache.Fresh.step
    PlanCache.Fresh.after_calls
program = tt

abbrev no_users : DirtyQueue
no_users = record { queue = []; total_marked = 0; total_processed = 0 }

abbrev waiting : List Call
waiting =
    marks (codes "0xA1")
    ∷ marks (codes "0xb0")
    ∷ marks (codes "0xa1")
    ∷ takes 1
    ∷ marks (codes "0xa1")
    ∷ []

taken_first : (run waiting no_users).taken ≡ codes "0xa1" ∷ []
unfolding program
taken_first = refl

abbrev two_users : DirtyQueue
two_users = record {
  queue = (codes "0xa1", tt) ∷ (codes "0xb0", tt) ∷ [];
  total_marked = 2;
  total_processed = 0;
}

two_users-Distinct : JsMap.Distinct two_users.queue
unfolding program
two_users-Distinct = (refl, (refl, tt))

no_users-IsValid : IsValid no_users
unfolding program
no_users-IsValid = record { distinct = tt; balanced = refl }

run-fifo_example :
    (keys no_users.queue ++ (run waiting no_users).accepted
      ≡ (run waiting no_users).taken ++ keys (run waiting no_users).final.queue)
    × IsValid (run waiting no_users).final
run-fifo_example = run-fifo waiting no_users no_users-IsValid

abbrev attempt : AttemptRecord
attempt = record {
  user = codes "0xA1";
  timestamp = 5;
  status = pending;
  tx_hash = none;
  nonce = some 7;
  error_text = none;
  debt_asset = none;
  collateral_asset = none;
  debt_to_cover = none;
}

abbrev attempts : List AttemptHistory.Log.Call
attempts = records attempt ∷ records (record attempt { status = sent }) ∷ []

in_flight : has_pending (codes "0xa1") (AttemptHistory.Log.after_calls attempts) ≡ true
unfolding program
in_flight = refl

get_history-log_example :
    get_history (codes "0xa1") (AttemptHistory.Log.after_calls attempts)
    ≡ last_n max_entries_per_user (log (to_lower_case (codes "0xa1")) attempts)
get_history-log_example = get_history-log attempts (codes "0xa1")

abbrev plan : PreparedPlan
plan = record {
  user = codes "0xA1";
  debt_asset = codes "0xd";
  collateral_asset = codes "0xc";
  debt_to_cover = 1;
  expected_collateral_out = 2;
  min_out = 1;
  one_inch_calldata = codes "0x";
  score = pos 1;
  created_at = 1000;
  debt_asset_decimals = 18;
  collateral_asset_decimals = 6;
  liquidation_bonus_bps = 500;
}

abbrev plans : List PlanCache.Fresh.Call
plans =
    gets (codes "0xA1") 1500 ∷ prepares plan ∷ prepares (record plan { user = codes "0xb0" }) ∷ []

abbrev kept : PlanCache
kept = PlanCache.Fresh.after_calls plans (PlanCache.create 0 1)

evicted_one : kept.stats.evicted ≡ 1
unfolding program
evicted_one = refl

too_old : (PlanCache.get (codes "0xa1") 16001 kept).1 ≡ none
unfolding program
too_old = refl

get-Served_example :
    Served plans 0 (codes "0xa1") 2000 kept (PlanCache.get (codes "0xa1") 2000 kept)
get-Served_example = get-Served plans 0 1 (codes "0xa1") 2000 (tt, (refl, (refl, tt)))

young : 2000 - plan.created_at ≤ (PlanCache.create 0 1).ttl_ms
unfolding program
young = omega arith
