-- ===== src/Tests/Verifier.antt =====
-- The checker of health factors and the verifier loop on small inputs.
use liquid_bot.Prelude.{
  ◌*◌, ◌^◌, ◌≡◌, refl, true, false, Option, none, some, List, [], ◌∷◌, arith, map, All, ◌==◌,
  if◌then◌else◌,
}
use liquid_bot.Prelude.Text.{Text, codes, text_key, text_eq, to_lower_case}
use liquid_bot.Prelude.Result.{Result, ok, err}
use liquid_bot.JsMap
use liquid_bot.JsMap.{Distinct}
use liquid_bot.DirtyQueue.{DirtyQueue, take_batch}
use liquid_bot.ActiveRiskSet.{finite, ActiveRiskSet}
use liquid_bot.ActiveRiskSet.Valid.{IsValid}
use liquid_bot.HealthFactorChecker.{
  CallResult, unsuccessful, decoded, BaseCurrency, Source, check_batch,
}
use liquid_bot.HealthFactorChecker.Batches.{Answers, checked, check_batch-eq-checked}
use liquid_bot.VerifierLoop.{VerifierLoop, Config, Ticked, create, tick}
use liquid_bot.VerifierLoop.Ticks.{
  Ticks, batch_of, tick-Ticks, ExecutesJustified, tick-ExecutesJustified,
}
use liquid_bot.VerifierLoop.Lost.{tick-lost}

-- The name of a user tells the account: "l" is in danger, "h" is healthy, "o" is an odd reading.
abbrev account : Text → CallResult
account user = elim user [
  | [] ↦ unsuccessful
  | c ∷ cs ↦
      if c == b'l'
      then decoded
          (record { total_collateral_base = 9; total_debt_base = 500; health_factor_raw = 5 })
      else if c == b'o'
      then decoded
          (record { total_collateral_base = 9; total_debt_base = 500; health_factor_raw = 0 })
      else decoded
          (record { total_collateral_base = 9; total_debt_base = 500; health_factor_raw = 20 })
]

abbrev source : Source
source = record { aggregate = λ users. ok (map account users); eth_usd_price = λ user. ok 1 }

abbrev broken : Source
broken = record { aggregate = λ users. err (codes "down"); eth_usd_price = λ user. ok 1 }

abbrev dollars : BaseCurrency
dollars = record { is_usd = true; decimals = 0 }

abbrev config : Config
config = record {
  base_currency = dollars;
  settings = record { min_debt_usd = 50; hf_threshold_start = 10; index_refresh_ms = 1000 };
  hf_threshold_execute = 10;
}

abbrev users : List Text
users = codes "o" ∷ codes "l" ∷ codes "h" ∷ codes "l2" ∷ []

abbrev queue : DirtyQueue
queue = record {
  queue = (codes "o", tt) ∷ (codes "l", tt) ∷ (codes "h", tt) ∷ (codes "l2", tt) ∷ [];
  total_marked = 4;
  total_processed = 0;
}

abbrev risk : ActiveRiskSet
risk = record { candidates = []; has_user_index = false; has_data_provider = false }

abbrev loop : VerifierLoop
loop = create queue risk none (some 3) true

source-Answers : Answers source account
source-Answers addresses = refl

queue-Distinct : Distinct queue.queue
unfolding JsMap.has text_eq
queue-Distinct = (refl, (refl, (refl, (refl, tt))))

risk-IsValid : IsValid config.settings risk
risk-IsValid = record { distinct = tt; kept = tt }

check_batch-eq-checked_example :
    check_batch dollars source users 3 ≡ some (ok (checked dollars source account users))
check_batch-eq-checked_example =
    check_batch-eq-checked dollars source account users 3 source-Answers (omega arith)

tick-Ticks_example : Ticks config source account loop (tick config source 7 loop)
unfolding create
tick-Ticks_example =
    tick-Ticks config source account 7 loop source-Answers queue-Distinct risk-IsValid

tick-ExecutesJustified_example :
    ExecutesJustified config account (batch_of loop) (tick config source 7 loop)
unfolding create
tick-ExecutesJustified_example =
    tick-ExecutesJustified config source account 7 loop source-Answers queue-Distinct risk-IsValid

abbrev executed_by : Option (VerifierLoop × Result Ticked) → Option (Result Ticked)
executed_by none = none
executed_by (some (after, result)) = some result

-- Of the three users taken, one is executed.
executed_one :
    executed_by (tick config source 7 loop)
    ≡ some (
        ok (record {
          executed =
              record { user = codes "l"; health_factor = finite 5; debt_usd_1e18 = 500 * 10 ^ 18 }
              ∷ [];
          refreshed = [];
        }))
unfolding create tick JsMap.has JsMap.set JsMap.delete JsMap.get to_lower_case text_eq
executed_one = refl

tick-lost_example :
    (tick config broken 7 loop
      ≡ some (
        record loop { dirty_queue = (take_batch loop.batch_size loop.dirty_queue).0 },
        err (codes "down"),
      ))
    × All
        (λ k. JsMap.has k (take_batch loop.batch_size loop.dirty_queue).0.queue ≡ false)
        (batch_of loop)
unfolding create
tick-lost_example = tick-lost config broken 7 loop (codes "down") queue-Distinct (λ e. cc) refl
