-- ===== src/Planner/Plans.antt =====
-- `buildCandidatePlans` and `buildPlan`. A call returns the caches and its result; `thrown` is a
-- rejected promise. Times are read from the clock by the caller of the model.
pub mod Returned
pub mod Agreement
use liquid_bot.Prelude.{
  ℕ, zero, ◌-◌, Bool, ◌&&◌, ◌||◌, Option, none, some, List, [], ◌∷◌, ltb, keep,
}
use liquid_bot.Prelude.Text.{Text}
use liquid_bot.Planner.Types.{
  UserReserveData, CandidatePlan, LiquidationPlan, PairScore, Sources, Caches,
}
use liquid_bot.Planner.Fetch.{get_token_decimals}
use liquid_bot.Planner.Select.{select_top_pairs, select_best_pair}

pub data Result {ℓ} (A : Type ℓ) : Type ℓ where
  returned : A → Result A
  thrown : Result A

abbrev pub has_debt : UserReserveData → Bool
has_debt r = ltb 0 r.current_variable_debt || ltb 0 r.current_stable_debt

abbrev pub has_collateral : UserReserveData → Bool
has_collateral r = r.usage_as_collateral_enabled && ltb 0 r.current_a_token_balance

-- Both `await getTokenDecimals`, the debt's first.
unfoldable pub pair_decimals : Sources → Caches → PairScore → Caches × Result (ℕ × ℕ)
unfolding get_token_decimals
pair_decimals src caches p =
    let debt =
      get_token_decimals src.contract_decimals caches.token_decimals_cache
        p.debt_reserve.underlying_asset in
    let collateral =
      get_token_decimals src.contract_decimals debt.0 p.collateral_reserve.underlying_asset in
    elim debt.1 [
      | none ↦ (record caches { token_decimals_cache = debt.0 }, thrown)
      | some d ↦ (
        record caches { token_decimals_cache = collateral.0 },
        elim collateral.1 [ none ↦ thrown | some c ↦ returned (d, c) ],
      )
    ]

abbrev pub candidate : PairScore → ℕ × ℕ → CandidatePlan
candidate p (d, c) = record {
  debt_asset = p.debt_reserve.underlying_asset;
  collateral_asset = p.collateral_reserve.underlying_asset;
  debt_to_cover = p.debt_to_cover;
  expected_collateral_out = p.expected_collateral_out;
  oracle_score = p.oracle_score_big_int;
  debt_asset_decimals = d;
  collateral_asset_decimals = c;
  liquidation_bonus_bps = p.liquidation_bonus_bps;
}

abbrev pub add_candidate :
    CandidatePlan → Caches × Result (List CandidatePlan) → Caches × Result (List CandidatePlan)
add_candidate c (caches, thrown) = (caches, thrown)
add_candidate c (caches, returned cs) = (caches, returned (c ∷ cs))

-- The loop that turns pairs into candidates; it stops at the first rejection.
unfoldable pub candidates : Sources → Caches → List PairScore → Caches × Result (List CandidatePlan)
candidates src caches [] = (caches, returned [])
candidates src caches (p ∷ ps) =
    let r = pair_decimals src caches p in
    let rest = candidates src r.0 ps in
    elim r.1 [ thrown ↦ (r.0, thrown) | returned ds ↦ add_candidate (candidate p ds) rest ]

-- The early returns on no debt and on no collateral, with `empty`. (No reserves at all means
-- neither.)
unfoldable pub on_positions {ℓ} :
    {A : Type ℓ}
    → Caches
    → A
    → (List UserReserveData → List UserReserveData → Caches × Result A)
    → List UserReserveData
    → List UserReserveData
    → Caches × Result A
on_positions caches empty found [] cs = (caches, returned empty)
on_positions caches empty found (d ∷ ds) [] = (caches, returned empty)
on_positions caches empty found (d ∷ ds) (c ∷ cs) = found (d ∷ ds) (c ∷ cs)

-- Steps 1 and 2 of both builders: the user's debts and collaterals.
unfoldable pub with_positions {ℓ} :
    {A : Type ℓ}
    → Sources
    → Caches
    → Text
    → A
    → (List UserReserveData → List UserReserveData → Caches × Result A)
    → Caches × Result A
with_positions src caches user empty found = elim (src.all_user_reserves user) [
  | none ↦ (caches, thrown)
  | some reserves ↦
      on_positions caches empty found (keep has_debt reserves) (keep has_collateral reserves)
]

unfoldable pub build_candidate_plans :
    Sources → Caches → Text → Caches × Result (List CandidatePlan)
build_candidate_plans src caches user = with_positions src caches user [] λ debts collaterals.
    let (caches', pairs) = select_top_pairs src caches debts collaterals in
    candidates src caches' pairs

abbrev pub plan : Text → ℕ → PairScore → ℕ × ℕ → LiquidationPlan
plan user elapsed p (d, c) = record {
  user = user;
  debt_asset = p.debt_reserve.underlying_asset;
  collateral_asset = p.collateral_reserve.underlying_asset;
  debt_to_cover = p.debt_to_cover;
  expected_collateral_out = p.expected_collateral_out;
  debt_asset_decimals = d;
  collateral_asset_decimals = c;
  liquidation_bonus_bps = p.liquidation_bonus_bps;
  profit_usd = p.score;
  execution_time_ms = elapsed;
}

-- The rest of `buildPlan` behind the selection.
unfoldable pub finish_plan :
    Sources → Text → ℕ → Caches × Option PairScore → Caches × Result (Option LiquidationPlan)
finish_plan src user elapsed (caches, none) = (caches, returned none)
finish_plan src user elapsed (caches, some p) =
    let r = pair_decimals src caches p in
    (r.0, elim r.1 [ thrown ↦ thrown | returned ds ↦ returned (some (plan user elapsed p ds)) ])

-- `elapsed` is `Date.now() - startTime`.
unfoldable pub build_plan : Sources → Caches → Text → ℕ → Caches × Result (Option LiquidationPlan)
build_plan src caches user elapsed = with_positions src caches user none λ debts collaterals.
    finish_plan src user elapsed (select_best_pair src caches debts collaterals)
