-- ===== src/HealthFactorChecker.antt =====
-- backend-v2/src/risk/HealthFactorChecker.ts: the health factors of users, read in batches. The
-- multicall and the price of ETH are parameters. A multicall answers each call, so that a result has
-- its address. Health factors are in units of 1e-18. A loop whose batch size is 0 does not end: the
-- batches take fuel.
pub mod Batches
use liquid_bot.Prelude.{
  ℕ, zero, suc, ◌+◌, ◌*◌, ◌/◌, ◌^◌, Bool, true, false, Option, none, some, List, [], ◌∷◌, ◌++◌, map,
  length, take, drop, ◌==◌, if◌then◌else◌,
}
use liquid_bot.Prelude.Text.{Text}
use liquid_bot.Prelude.Result.{Result, ok, err}
use liquid_bot.ActiveRiskSet.{HealthFactor, finite, infinity}
use liquid_bot.Planner.Amounts.{to_1e18}

pub record HealthFactorResult : Type 0 where
  pub address : Text
  pub health_factor : HealthFactor
  pub total_debt_base : ℕ
  pub total_collateral_base : ℕ
  pub debt_usd_1e18 : ℕ

-- The fields of `getUserAccountData` that are read.
pub record AccountData : Type 0 where
  pub total_collateral_base : ℕ
  pub total_debt_base : ℕ
  pub health_factor_raw : ℕ

-- A call that failed, one whose data cannot be decoded, or the data.
pub data CallResult : Type 0 where
  unsuccessful : CallResult
  undecodable : CallResult
  decoded : AccountData → CallResult

-- The configuration of the base currency.
pub record BaseCurrency : Type 0 where
  pub is_usd : Bool
  pub decimals : ℕ

-- The multicall, and `getUsdPrice('ETH')` as it answers at the turn of a user.
pub record Source : Type 0 where
  pub aggregate : List Text → Result (List CallResult)
  pub eth_usd_price : Text → Result ℕ

-- The sanitized health factor; `none` skips the user. `Number(healthFactorRaw) / 1e18` is the raw value
-- in units of 1e-18 here; the source rounds it to a double, which moves it by about one part in 2 ^ 52.
unfoldable pub sanitize : AccountData → Option HealthFactor
sanitize d =
    if d.total_debt_base == 0
    then some infinity
    else if d.health_factor_raw == 0
    then (if d.total_collateral_base == 0 then some (finite 0) else none)
    else some (finite d.health_factor_raw)

unfoldable pub debt_usd : BaseCurrency → Result ℕ → ℕ → Result ℕ
unfolding to_1e18
debt_usd c eth_usd total_debt_base =
    if c.is_usd then ok (to_1e18 total_debt_base c.decimals) else elim eth_usd [
      | err message ↦ err message
      | ok price ↦ ok (to_1e18 total_debt_base c.decimals * price / 10 ^ 18)
    ]

abbrev pub result_of : Text → AccountData → HealthFactor → Result ℕ → List HealthFactorResult
result_of address d hf (err message) = []
result_of address d hf (ok debt) =
    record {
      address = address;
      health_factor = hf;
      total_debt_base = d.total_debt_base;
      total_collateral_base = d.total_collateral_base;
      debt_usd_1e18 = debt;
    }
    ∷ []

-- One round of the loop over the results: what it pushes.
unfoldable pub check_call : BaseCurrency → Source → Text → CallResult → List HealthFactorResult
unfolding sanitize debt_usd
check_call c src address unsuccessful = []
check_call c src address undecodable = []
check_call c src address (decoded d) = elim (sanitize d) [
  | none ↦ []
  | some hf ↦ result_of address d hf (debt_usd c (src.eth_usd_price address) d.total_debt_base)
]

unfoldable pub collect :
    BaseCurrency → Source → List Text → List CallResult → List HealthFactorResult
unfolding check_call
collect c src (address ∷ addresses) (r ∷ results) =
    check_call c src address r ++ collect c src addresses results
collect c src addresses results = []

unfoldable pub check_single_batch :
    BaseCurrency → Source → List Text → Result (List HealthFactorResult)
unfolding collect
check_single_batch c src addresses = elim (src.aggregate addresses) [
  | err message ↦ err message
  | ok results ↦ ok (collect c src addresses results)
]

-- What the batches give together; `none` if the fuel ran out.
abbrev pub Checked : Type 0
Checked = Option (Result (List HealthFactorResult))

abbrev pub push_results : List HealthFactorResult → Checked → Checked
push_results results none = none
push_results results (some (err message)) = some (err message)
push_results results (some (ok later)) = some (ok (results ++ later))

unfoldable pub check_batches : ℕ → BaseCurrency → Source → ℕ → List Text → Checked
unfolding check_single_batch
check_batches fuel c src size [] = some (ok [])
check_batches zero c src size (x ∷ xs) = none
check_batches (suc fuel) c src size (x ∷ xs) =
    elim (check_single_batch c src (take size (x ∷ xs))) [
      | err message ↦ some (err message)
      | ok results ↦ push_results results (check_batches fuel c src size (drop size (x ∷ xs)))
    ]

unfoldable pub check_batch : BaseCurrency → Source → List Text → ℕ → Checked
unfolding check_batches
check_batch c src addresses size = check_batches (length addresses) c src size addresses

-- `results[0] || null`
abbrev pub first_result : List HealthFactorResult → Option HealthFactorResult
first_result [] = none
first_result (r ∷ results) = some r

unfoldable pub check_single :
    BaseCurrency → Source → Text → Option (Result (Option HealthFactorResult))
unfolding check_batch
check_single c src address = elim (check_batch c src (address ∷ []) 100) [
  | none ↦ none
  | some (err message) ↦ some (err message)
  | some (ok results) ↦ some (ok (first_result results))
]
