-- ===== src/PredictiveLoop/Limit.antt =====
-- What the parts of a call leave alone: the times of the last rescores, and the rate limit.
use liquid_bot.Prelude.{
  ℕ, ◌+◌, ◌≡◌, refl, true, Option, none, some, List, [], ◌∷◌, if◌then◌else◌, Bool-cases,
  Option-cases, inl, inr, or_number,
}
use liquid_bot.Prelude.Text.{Text, text_key, to_lower_case, to_upper_case}
use liquid_bot.Prelude.Result.{Result-cases}
use liquid_bot.JsMap
use liquid_bot.JsMap.{JsMap, includes}
use liquid_bot.ActiveRiskSet.{update_hf}
use liquid_bot.HealthFactorChecker.{HealthFactorResult, check_single}
use liquid_bot.Planner.Plans
use liquid_bot.Planner.Plans.{returned, thrown, build_candidate_plans}
use liquid_bot.Planner.Types.{CandidatePlan}
use liquid_bot.PredictiveLoop.{
  PredictiveLoop, World, prepare_first, prepare_plan, quote_for, needs_plan, after_result,
  rescore_user, PriceUpdate, is_small_move, users_after_move, known_address, affected_users,
}

-- What bears on the rate limit is the same.
pub record Same (l m : PredictiveLoop) : Type 0 where
  pub times : m.last_rescore_time ≡ l.last_rescore_time
  pub limit : m.rescore_rate_limit_ms ≡ l.rescore_rate_limit_ms

prepare_first-Same :
    (w : World) (user : Text) (r : Plans.Result (List CandidatePlan)) (l : PredictiveLoop)
    → Same l (prepare_first w user r l)
unfolding prepare_first
prepare_first-Same w user thrown l = record { times = refl; limit = refl }
prepare_first-Same w user (returned []) l = record { times = refl; limit = refl }
prepare_first-Same w user (returned (c ∷ cs)) l = elim (Result-cases (quote_for w c)) [
  | inl (q, e) ↦ rw (e, prepare_first) (record { times = refl; limit = refl })
  | inr (m, e) ↦ rw (e, prepare_first) (record { times = refl; limit = refl })
]

prepare_plan-Same : (w : World) (user : Text) (l : PredictiveLoop) → Same l (prepare_plan w user l)
unfolding prepare_plan
prepare_plan-Same w user l = elim (Bool-cases l.has_components) [
  | inr n ↦ rw (n, if◌then◌else◌) (record { times = refl; limit = refl })
  | inl y ↦
      let (caches, r) = build_candidate_plans w.sources l.planner_caches user in
      let fresh : PredictiveLoop = record l { has_components = true; planner_caches = caches } in
      let step = prepare_first-Same w user r fresh in
      rw (y, if◌then◌else◌) (record { times = step.times; limit = step.limit })
]

after_result-Same :
    (w : World) (user : Text) (r : HealthFactorResult) (l : PredictiveLoop)
    → Same l (after_result w user r l).0
unfolding after_result
after_result-Same w user r l =
    let (risk, started) =
      update_hf w.settings (w.time user) user r.health_factor r.debt_usd_1e18
        r.total_collateral_base l.risk_set in
    let updated : PredictiveLoop = record l { risk_set = risk } in
    elim (Bool-cases (needs_plan l.prepare_hf_threshold r.health_factor)) [
      | inr n ↦ rw (n, if◌then◌else◌) (record { times = refl; limit = refl })
      | inl y ↦
          let step = prepare_plan-Same w user updated in
          rw (y, if◌then◌else◌) (record { times = step.times; limit = step.limit })
    ]

pub rescore_user-Same :
    (w : World) (user : Text) (l : PredictiveLoop)
    → Same l (rescore_user w user l).0 × ((rescore_user w user l).1.visited ≡ user ∷ [])
unfolding rescore_user
rescore_user-Same w user l = elim (Option-cases (check_single w.base_currency w.health user)) [
  | inl n ↦ rw (n, rescore_user) (record { times = refl; limit = refl }, refl)
  | inr (some_result, e) ↦ elim (Result-cases some_result) [
    | inr (message, f) ↦ rw (e, f, rescore_user) (record { times = refl; limit = refl }, refl)
    | inl (o, f) ↦ elim (Option-cases o) [
      | inl n ↦ rw (e, f, n, rescore_user) (record { times = refl; limit = refl }, refl)
      | inr (r, g) ↦ rw (e, f, g, rescore_user) (after_result-Same w user r l, refl)
    ]
  ]
]

users_after_move-Same :
    (token : Text) (price : ℕ) (o : Option ℕ) (l : PredictiveLoop)
    → Same l (users_after_move token price o l).0
unfolding users_after_move
users_after_move-Same token price none l = record { times = refl; limit = refl }
users_after_move-Same token price (some last) l =
    elim (Bool-cases (
      is_small_move (or_number (JsMap.get token l.token_thresholds) l.default_threshold) last
        price)) [
          | inl y ↦ rw (y, if◌then◌else◌) (record { times = refl; limit = refl })
          | inr n ↦ rw (n, if◌then◌else◌) (record { times = refl; limit = refl })
        ]

pub affected_users-Same :
    (update : PriceUpdate) (l : PredictiveLoop) → Same l (affected_users update l).0
unfolding affected_users
affected_users-Same update l =
    elim (Option-cases
      (known_address (JsMap.get (to_upper_case update.symbol) l.symbol_to_address))) [
        | inl n ↦ rw (n, affected_users) (record { times = refl; limit = refl })
        | inr (address, e) ↦
            let token = to_lower_case address in
            let ready : PredictiveLoop = record l {
              stats = record l.stats { pyth_ticks_seen = l.stats.pyth_ticks_seen + 1 };
              last_prices = JsMap.set token update.price l.last_prices;
            } in
            let s =
              users_after_move-Same token update.price (JsMap.get token l.last_prices) ready in
            rw (e, affected_users) (record { times = s.times; limit = s.limit })
      ]
