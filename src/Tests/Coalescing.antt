-- ===== src/Tests/Coalescing.antt =====
-- The coalescer of reserve events, the fallback orchestrator and the intersection of addresses on small
-- inputs.
use liquid_bot.Prelude.{
  ℕ, ◌*◌, ◌^◌, ◌≤◌, ◌≡◌, refl, true, false, none, some, List, [], ◌∷◌, ◌++◌, length, take,
  if◌then◌else◌,
}
use liquid_bot.Prelude.Text.{Text, codes, text_key, text_eq, to_lower_case}
use liquid_bot.JsMap
use liquid_bot.JsMap.{includes}
use liquid_bot.NearBandFilter.{UserSnapshot, NearBandFilterConfig, filter}
use liquid_bot.FallbackOrchestrator.{
  FallbackOrchestrator, new_orchestrator, set_provider_health, record_price_shock,
  should_evaluate_users,
}
use liquid_bot.FallbackOrchestrator.Chosen.{
  targets, is_active, should_evaluate_users-Chooses, should_evaluate_users-near_only,
}
use liquid_bot.ReserveEventCoalescer.{
  ReserveEvent, Coalescer, reserve_data_updated, new_coalescer, add_event, stop_coalescer,
}
use liquid_bot.ReserveEventCoalescer.Totals.{emitted}
use liquid_bot.ReserveEventCoalescer.Conserved.{is_covered}
use liquid_bot.ReserveEventCoalescer.Stopped.{
  Call, call, adds, reserve_timer, run, all_accepted, emitted-run-stop, is_covered-add-run-stop,
}

abbrev event : Text → ℕ → ReserveEvent
event reserve block = record {
  reserve = reserve;
  block_number = block;
  timestamp = 5;
  event_type = reserve_data_updated;
}

abbrev calls : List Call
calls =
    adds 1 (event (codes "0xA") 7)
    ∷ adds 2 (event (codes "0xb") 8)
    ∷ reserve_timer 40 (codes "0xa")
    ∷ adds 41 (event (codes "0xa") 9)
    ∷ adds 42 (event (codes "0xB") 9)
    ∷ []

-- Batches of two at most, one for each reserve.
abbrev per_reserve : Coalescer
per_reserve = new_coalescer none (some 2) (some true)

emitted_four : all_accepted calls per_reserve ≡ 4
unfolding all_accepted new_coalescer add_event call JsMap.get JsMap.set text_eq to_lower_case
    JsMap.delete
emitted_four = refl

emitted-run-stop_example :
    emitted ((run calls per_reserve).1 ++ (stop_coalescer 50 (run calls per_reserve).0).1)
    ≡ all_accepted calls per_reserve
emitted-run-stop_example = emitted-run-stop none (some 2) (some true) calls 50

abbrev everything : Coalescer
everything = new_coalescer none none none

is_covered-add-run-stop_example :
    is_covered (event (codes "0xC") 3) (
      (add_event 0 (event (codes "0xC") 3) everything).1
      ++ ((run calls (add_event 0 (event (codes "0xC") 3) everything).0).1
          ++ (stop_coalescer 50
              (run calls (add_event 0 (event (codes "0xC") 3) everything).0).0).1))
    ≡ true
unfolding new_coalescer
is_covered-add-run-stop_example =
    is_covered-add-run-stop 0 50 (event (codes "0xC") 3) calls everything refl

abbrev band : NearBandFilterConfig
band = record { near_band_bps = 30; min_debt_usd = 10; hf_pred_critical = 0 }

abbrev users : List UserSnapshot
users =
    record { hf = 2 * 10 ^ 18; debt_usd = none; projected_hf = none }
    ∷ record { hf = 9 * 10 ^ 17; debt_usd = none; projected_hf = none }
    ∷ record { hf = 10 ^ 18; debt_usd = none; projected_hf = none }
    ∷ []

abbrev fallback : FallbackOrchestrator
fallback =
    new_orchestrator
      (record {
        enabled = true;
        near_only = true;
        max_target_users_per_tick = 1;
        price_shock_drop_bps = 30;
      })
      band

-- The provider fails, and the price of an asset drops.
abbrev unhealthy : FallbackOrchestrator
unhealthy =
    set_provider_health false (
      record_price_shock (record { asset = codes "WETH"; drop_bps = 90; timestamp = 100 }) fallback)

one_user : length (should_evaluate_users 200 users unhealthy).user_snapshots ≡ 1
unfolding new_orchestrator set_provider_health record_price_shock should_evaluate_users filter
one_user = refl

should_evaluate_users-Chooses_example :
    ((should_evaluate_users 200 users unhealthy).user_snapshots ≡ (
      if is_active 200 unhealthy
      then take unhealthy.config.max_target_users_per_tick (targets unhealthy users)
      else []))
    × (length (should_evaluate_users 200 users unhealthy).user_snapshots
        ≤ unhealthy.config.max_target_users_per_tick)
should_evaluate_users-Chooses_example = should_evaluate_users-Chooses 200 users unhealthy

should_evaluate_users-near_only_example :
    (should_evaluate_users 200 users unhealthy).user_snapshots
    ≡ (should_evaluate_users 100 users fallback).user_snapshots
unfolding new_orchestrator set_provider_health record_price_shock
should_evaluate_users-near_only_example =
    should_evaluate_users-near_only 100 200 users fallback unhealthy refl refl refl
