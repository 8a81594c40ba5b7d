-- ===== src/VerifierLoop.antt =====
-- backend-v2/src/risk/verifierLoop.ts: one batch of dirty users at a time is checked, the risk set
-- is brought up to date, and users that can be liquidated are handed to the callback. A call of the
-- callback is a value in the result: its errors are caught and change nothing. What others do to the
-- queue and the set while a tick waits is left out, as are log lines.
pub mod Ticks
pub mod Lost
use liquid_bot.Prelude.{
  ℕ, ◌+◌, Bool, true, false, ◌&&◌, Option, none, some, List, [], ◌∷◌, ◌++◌, length, leb, ◌==◌,
  if◌then◌else◌, or_number,
}
use liquid_bot.Prelude.Text.{Text}
use liquid_bot.Prelude.Result.{Result, ok, err}
use liquid_bot.DirtyQueue
use liquid_bot.DirtyQueue.{DirtyQueue, take_batch}
use liquid_bot.ActiveRiskSet.{
  HealthFactor, finite, infinity, Settings, ActiveRiskSet, get_min_debt_threshold, update_hf,
}
use liquid_bot.HealthFactorChecker.{HealthFactorResult, BaseCurrency, Source, Checked, check_batch}

pub record VerifierLoop : Type 0 where
  pub dirty_queue : DirtyQueue
  pub active_risk_set : ActiveRiskSet
  pub interval_ms : ℕ
  pub batch_size : ℕ
  pub interval_handle : Bool
  pub running : Bool
  pub on_execute : Bool

-- What is read of the configuration; the threshold is in units of 1e-18.
pub record Config : Type 0 where
  pub base_currency : BaseCurrency
  pub settings : Settings
  pub hf_threshold_execute : ℕ

unfoldable pub create : DirtyQueue → ActiveRiskSet → Option ℕ → Option ℕ → Bool → VerifierLoop
create queue risk interval batch on_execute = record {
  dirty_queue = queue;
  active_risk_set = risk;
  interval_ms = or_number interval 250;
  batch_size = or_number batch 200;
  interval_handle = false;
  running = false;
  on_execute = on_execute;
}

unfoldable pub start : VerifierLoop → VerifierLoop
start l = if l.running then l else record l { running = true; interval_handle = true }

unfoldable pub stop : VerifierLoop → VerifierLoop
stop l = if l.running then record l { running = false; interval_handle = false } else l

-- A call of `onExecute`.
pub record Execution : Type 0 where
  pub user : Text
  pub health_factor : HealthFactor
  pub debt_usd_1e18 : ℕ

-- `healthFactor <= threshold`
abbrev pub is_at_most : HealthFactor → ℕ → Bool
is_at_most infinity t = false
is_at_most (finite h) t = leb h t

abbrev pub should_execute : Config → HealthFactorResult → Bool
should_execute c r =
    is_at_most r.health_factor c.hf_threshold_execute
    && leb (get_min_debt_threshold c.settings) r.debt_usd_1e18

abbrev pub execution_of : HealthFactorResult → Execution
execution_of r = record {
  user = r.address;
  health_factor = r.health_factor;
  debt_usd_1e18 = r.debt_usd_1e18;
}

-- What a tick did: the calls of the callback, and the users whose tokens the risk set reads again.
pub record Ticked : Type 0 where
  pub executed : List Execution
  pub refreshed : List Text

-- The loop over the results.
unfoldable pub process_results :
    Config → ℕ → Bool → List HealthFactorResult → ActiveRiskSet → ActiveRiskSet × Ticked
unfolding update_hf
process_results c now on_execute [] risk = (risk, record { executed = []; refreshed = [] })
process_results c now on_execute (r ∷ results) risk =
    let (updated, started) =
      update_hf c.settings now r.address r.health_factor r.debt_usd_1e18 r.total_collateral_base
        risk in
    let (final, rest) = process_results c now on_execute results updated in
    (
      final,
      record {
        executed =
            (if should_execute c r && on_execute then execution_of r ∷ [] else []) ++ rest.executed;
        refreshed = started ++ rest.refreshed;
      },
    )

-- A tick, from the results of the check on.
unfoldable pub after_check :
    Config → ℕ → VerifierLoop → Checked → Option (VerifierLoop × Result Ticked)
unfolding process_results
after_check c now l none = none
after_check c now l (some (err message)) = some (l, err message)
after_check c now l (some (ok results)) =
    let (risk, ticked) = process_results c now l.on_execute results l.active_risk_set in
    some (record l { active_risk_set = risk }, ok ticked)

-- `none` if the fuel of the batches ran out; an error is that of a failed multicall.
unfoldable pub tick : Config → Source → ℕ → VerifierLoop → Option (VerifierLoop × Result Ticked)
unfolding after_check check_batch take_batch
tick c src now l =
    let (queue, batch) = take_batch l.batch_size l.dirty_queue in
    let taken : VerifierLoop = record l { dirty_queue = queue } in
    if length batch == 0
    then some (taken, ok (record { executed = []; refreshed = [] }))
    else after_check c now taken (check_batch c.base_currency src batch (length batch))

pub record LoopStats : Type 0 where
  pub running : Bool
  pub interval_ms : ℕ
  pub batch_size : ℕ
  pub queue_size : ℕ

unfoldable pub get_stats : VerifierLoop → LoopStats
get_stats l = record {
  running = l.running;
  interval_ms = l.interval_ms;
  batch_size = l.batch_size;
  queue_size = DirtyQueue.size l.dirty_queue;
}
