-- ===== src/Planner/Plans/Agreement.antt =====
-- The two builders against each other.
use liquid_bot.Prelude.{
  ℕ, ◌≡◌, true, Option, none, some, List, [], ◌∷◌, arith, keep-All, All, Option-cases, inl, inr,
}
use liquid_bot.Prelude.Text.{Text}
use liquid_bot.Planner.Types.{
  UserReserveData, CandidatePlan, LiquidationPlan, PairScore, Sources, Caches, Quotes,
}
use liquid_bot.Planner.Fetch.{prefetch}
use liquid_bot.Planner.Score.{score_pairs}
use liquid_bot.Planner.Score.Sound.{score_pairs-Scored}
use liquid_bot.Planner.Select.{top_pairs, first, select_top_pairs, select_best_pair}
use liquid_bot.Planner.Select.Best.{top_pairs-All, select_best_pair-first}
use liquid_bot.Planner.Plans.{
  returned, has_debt, has_collateral, candidates, on_positions, with_positions,
  build_candidate_plans, finish_plan, build_plan,
}
use liquid_bot.Planner.Plans.Returned.{PlannerScored}

-- A candidate as a complete plan.
abbrev pub plan_of : Text → ℕ → CandidatePlan → LiquidationPlan
plan_of user elapsed c = record {
  user = user;
  debt_asset = c.debt_asset;
  collateral_asset = c.collateral_asset;
  debt_to_cover = c.debt_to_cover;
  expected_collateral_out = c.expected_collateral_out;
  debt_asset_decimals = c.debt_asset_decimals;
  collateral_asset_decimals = c.collateral_asset_decimals;
  liquidation_bonus_bps = c.liquidation_bonus_bps;
  profit_usd = c.oracle_score;
  execution_time_ms = elapsed;
}

abbrev pub first_plan : Text → ℕ → List CandidatePlan → Option LiquidationPlan
first_plan user elapsed [] = none
first_plan user elapsed (c ∷ cs) = some (plan_of user elapsed c)

module _ (src : Sources) (user : Text) (elapsed : ℕ) where
  finish_plan-first :
      (q : Quotes) (caches : Caches) (ps : List PairScore) {plans : List CandidatePlan}
      → All (PlannerScored q) ps
      → (candidates src caches ps).1 ≡ returned plans
      → (finish_plan src user elapsed (caches, first ps)).1
        ≡ returned (first_plan user elapsed plans)
  unfolding candidates finish_plan
  finish_plan-first q caches [] h e = ground arith
  finish_plan-first q caches (p ∷ ps) h e = let sound = h.0.3 in ground (arith, sound.exact_score)

  positions-agree :
      (caches : Caches) (ds cs : List UserReserveData) {plans : List CandidatePlan}
      → All (λ r. has_debt r ≡ true) ds
      → All (λ r. has_collateral r ≡ true) cs
      → (on_positions caches []
          (λ ds cs.
            let (caches', pairs) = select_top_pairs src caches ds cs in
            candidates src caches' pairs)
          ds
          cs).1
        ≡ returned plans
      → (on_positions caches none
          (λ ds cs. finish_plan src user elapsed (select_best_pair src caches ds cs))
          ds
          cs).1
        ≡ returned (first_plan user elapsed plans)
  unfolding on_positions select_top_pairs
  positions-agree caches [] cs hd hc e = ground arith
  positions-agree caches (d ∷ ds) [] hd hc e = ground arith
  positions-agree caches (d ∷ ds) (c ∷ cs) hd hc e =
      let (caches', q) = prefetch src caches (d ∷ ds) (c ∷ cs) in
      let scored = score_pairs q (d ∷ ds) (c ∷ cs) in
      rw select_best_pair-first (
        finish_plan-first q caches' (top_pairs scored)
          (top_pairs-All (PlannerScored q) scored (score_pairs-Scored _ _ q _ _ hd hc)) e)

  -- From the same caches and sources, `buildPlan` returns the first plan of `buildCandidatePlans`
  -- whenever that returns, and no plan exactly when there is no candidate.
  pub build_plan-first :
      (caches : Caches) {plans : List CandidatePlan}
      → (build_candidate_plans src caches user).1 ≡ returned plans
      → (build_plan src caches user elapsed).1 ≡ returned (first_plan user elapsed plans)
  unfolding build_candidate_plans build_plan with_positions
  build_plan-first caches e = elim (Option-cases (src.all_user_reserves user)) [
    | inl failed ↦ absurd (ground arith)
    | inr (reserves, f) ↦
        rw (f, with_positions)
          (positions-agree caches _ _ (keep-All has_debt reserves)
            (keep-All has_collateral reserves) (rw (f, with_positions) at e))
  ]
