-- ===== src/Tests/Budgets.antt =====
-- The predictive budgets and the scan registry on small inputs.
use liquid_bot.Prelude.{
  ℕ, ◌+◌, ◌≤◌, ◌≡◌, refl, true, false, none, some, List, [], ◌∷◌, arith, length, min,
}
use liquid_bot.Prelude.Text.{Text, codes, text_eq}
use liquid_bot.Prelude.Sort.{sort}
use liquid_bot.JsMap
use liquid_bot.PredictiveBudgetTracker.{
  BudgetConfig, BudgetTracker, create_tracker, asset_count, RatedUser, room, downsample_to_fit,
  start_tick, record_users_evaluated,
}
use liquid_bot.PredictiveBudgetTracker.Caps.{length-downsample_to_fit}
use liquid_bot.PredictiveBudgetTracker.Overlap.{
  Event, arrives, finishes, choose_users, take_out, step, World, evaluated, waiting, OverlapAtMost,
  evaluated-le,
}
use liquid_bot.ScanRegistry.{
  ScanKey, ScanRegistry, price, event, create_registry, generate_key, acquire,
}
use liquid_bot.ScanRegistry.Runs.{Call, acquires, releases, cleans, run, acquire-exclusive}

abbrev budget : BudgetConfig
budget = record {
  max_users_per_tick = 3;
  max_ticks_per_min = 1;
  rpc_budget_usd_per_hour = 0;
  max_users_per_signal_per_asset = 2;
  cost_per_hf_read_usd = 7;
}

abbrev rated : List RatedUser
rated =
    record { address = codes "0xa"; hf = none; debt_usd = none }
    ∷ record { address = codes "0xb"; hf = some 1050000000000000000; debt_usd = some 10 }
    ∷ record { address = codes "0xc"; hf = some 1010000000000000000; debt_usd = some 20 }
    ∷ []

abbrev tracker : BudgetTracker
tracker = create_tracker 5

-- No budget for the hour is left, and users are left all the same.
chosen_of_rated : length (downsample_to_fit budget rated (some (codes "WETH")) tracker) ≡ 2
unfolding downsample_to_fit create_tracker JsMap.get sort
chosen_of_rated = refl

length-downsample_to_fit_example :
    length (downsample_to_fit budget rated (some (codes "WETH")) tracker)
    ≡ min (room budget (some (codes "WETH")) tracker) (length rated)
length-downsample_to_fit_example =
    length-downsample_to_fit budget rated (some (codes "WETH")) tracker

abbrev at : ℕ → Text → Event
at now symbol = arrives (record { now = now; symbol = symbol; users = rated })

abbrev idle : World
idle = record { tracker = tracker; pending = [] }

-- One after another: the second signal for the asset evaluates nobody.
abbrev in_turn : List Event
in_turn =
    at 10 (codes "WETH")
    ∷ finishes 0
    ∷ at 70000 (codes "USDC")
    ∷ finishes 0
    ∷ at 9000000 (codes "WETH")
    ∷ []

two_in_turn : evaluated budget (codes "WETH") in_turn idle ≡ 2
unfolding evaluated create_tracker text_eq choose_users downsample_to_fit start_tick JsMap.get sort
    record_users_evaluated JsMap.set take_out
two_in_turn = refl

-- Two that overlap pass the cap.
abbrev overlapping : List Event
overlapping = at 10 (codes "WETH") ∷ at 70000 (codes "WETH") ∷ finishes 0 ∷ finishes 0 ∷ []

four_by_overlap : evaluated budget (codes "WETH") overlapping idle ≡ 4
unfolding evaluated create_tracker text_eq choose_users downsample_to_fit start_tick JsMap.get sort
    record_users_evaluated JsMap.set take_out
four_by_overlap = refl

two_at_once : OverlapAtMost 2 budget (codes "WETH") overlapping idle
unfolding step create_tracker text_eq choose_users downsample_to_fit start_tick JsMap.get sort
    record_users_evaluated JsMap.set take_out waiting
two_at_once = (omega arith, (omega arith, (omega arith, (omega arith, tt))))

evaluated-le_example :
    asset_count (codes "WETH") tracker + evaluated budget (codes "WETH") overlapping idle ≤ 4
unfolding asset_count create_tracker JsMap.get
evaluated-le_example =
    evaluated-le 2 budget (codes "WETH") overlapping tracker (omega arith) refl (omega arith)
      two_at_once

abbrev registry : ScanRegistry
registry = create_registry none none none

abbrev scan : ScanKey
scan = record {
  trigger_type = price;
  symbol_or_reserve = some (codes "0xABCDEF0123456789");
  block_tag = some 7;
  reason_hash = none;
}

-- Another reserve with the same first ten digits.
abbrev like_scan : ScanKey
like_scan = record {
  trigger_type = price;
  symbol_or_reserve = some (codes "0xabcdef0123999999");
  block_tag = some 7;
  reason_hash = some (codes "");
}

abbrev other_scan : ScanKey
other_scan = record {
  trigger_type = event;
  symbol_or_reserve = some (codes "WETH");
  block_tag = none;
  reason_hash = some (codes "ab");
}

key_of_scan : generate_key scan ≡ codes "price:0xabcdef0123:b7"
unfolding generate_key
key_of_scan = refl

key_of_other_scan : generate_key other_scan ≡ codes "event:weth:ab"
unfolding generate_key
key_of_other_scan = refl

abbrev calls : List Call
calls = acquires 101 other_scan ∷ releases 200 scan ∷ cleans 300 ∷ releases 400 other_scan ∷ []

granted : (acquire 100 scan registry).1 ≡ true
unfolding acquire create_registry JsMap.get
granted = refl

same_key : generate_key like_scan ≡ generate_key scan
unfolding generate_key
same_key = refl

acquire-exclusive_example :
    (acquire 9000 like_scan (run calls (acquire 100 scan registry).0)).1 ≡ false
unfolding create_registry
acquire-exclusive_example =
    acquire-exclusive 100 9000 scan like_scan calls registry (omega arith) granted same_key
      (
        (omega arith, omega arith),
        (
          (omega arith, omega arith),
          ((omega arith, omega arith), ((omega arith, omega arith), tt)),
        ),
      )
      (omega arith) (omega arith) (omega arith)
