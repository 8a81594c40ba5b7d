-- ===== src/PredictiveLoop/Prepares.antt =====
-- Which plans are prepared, and that they are served.
use liquid_bot.Prelude.{
  ℕ, ◌-◌, ◌≤◌, ◌<◌, ◌≡◌, ◌⊎◌, refl, ap, ◌∙◌, Bool, true, some, List, [], ◌∷◌, arith, if◌then◌else◌,
  Bool-cases, Option-cases, inl, inr,
}
use liquid_bot.Prelude.Text.{Text}
use liquid_bot.Prelude.Result.{ok, Result-cases}
use liquid_bot.ActiveRiskSet.{HealthFactor, finite, infinity, update_hf}
use liquid_bot.HealthFactorChecker.{HealthFactorResult, check_single}
use liquid_bot.PlanCache
use liquid_bot.PlanCache.{PlanCache, PreparedPlan}
use liquid_bot.PlanCache.Served.{get-prepare}
use liquid_bot.Planner.Types.{CandidatePlan}
use liquid_bot.Planner.Plans
use liquid_bot.Planner.Plans.{returned, thrown, build_candidate_plans}
use liquid_bot.PredictiveLoop.{
  PredictiveLoop, World, SwapQuote, prepared_plan, quote_for, prepare_first, prepare_plan,
  needs_plan, after_result, rescore_user,
}

abbrev pub Candidates : Type 0
Candidates = Plans.Result (List CandidatePlan)

-- The cache after the plan of the first candidate was stored, with its quote.
pub record Stores (w : World) (user : Text) (r : Candidates) (before after : PlanCache)
    : Type 0 where
  pub candidate : CandidatePlan
  pub others : List CandidatePlan
  pub quote : SwapQuote
  pub first : r ≡ returned (candidate ∷ others)
  pub quoted : quote_for w candidate ≡ ok quote
  pub stored : after ≡ PlanCache.prepare (prepared_plan user (w.time user) candidate quote) before

prepare_first-Stores :
    (w : World) (user : Text) (r : Plans.Result (List CandidatePlan)) (l : PredictiveLoop)
    → ((prepare_first w user r l).plan_cache ≡ l.plan_cache)
      ⊎ Stores w user r l.plan_cache (prepare_first w user r l).plan_cache
unfolding prepare_first
prepare_first-Stores w user thrown l = inl refl
prepare_first-Stores w user (returned []) l = inl refl
prepare_first-Stores w user (returned (c ∷ cs)) l = elim (Result-cases (quote_for w c)) [
  | inr (m, e) ↦ inl (rw (e, prepare_first) refl)
  | inl (q, e) ↦ inr (record {
    candidate = c;
    others = cs;
    quote = q;
    first = refl;
    quoted = e;
    stored = rw (e, prepare_first) refl;
  })
]

-- Why the cache changed: the chain says that the user is near liquidation, and the planner and the
-- swap builder, which are set, answered.
pub record Justified (w : World) (user : Text) (l : PredictiveLoop) (after : PlanCache)
    : Type 0 where
  pub result : HealthFactorResult
  pub hf : ℕ
  pub read : check_single w.base_currency w.health user ≡ some (ok (some result))
  pub is_finite : result.health_factor ≡ finite hf
  pub near : (0 < hf) × (hf < l.prepare_hf_threshold)
  pub components : l.has_components ≡ true
  pub stores :
      Stores w user (build_candidate_plans w.sources l.planner_caches user).1 l.plan_cache after

abbrev pub NeedsPlan : ℕ → HealthFactor → Type 0
NeedsPlan threshold h = (n : ℕ) × (h ≡ finite n) × (0 < n) × (n < threshold)

needs_plan-NeedsPlan :
    (threshold : ℕ) (h : HealthFactor) → needs_plan threshold h ≡ true → NeedsPlan threshold h
needs_plan-NeedsPlan threshold infinity e = ground (arith, e)
needs_plan-NeedsPlan threshold (finite n) e = (n, refl, ground (arith, e), ground (arith, e))

prepare_plan-Stores :
    (w : World) (user : Text) (l : PredictiveLoop)
    → ((prepare_plan w user l).plan_cache ≡ l.plan_cache)
      ⊎ ((l.has_components ≡ true)
          × Stores w user
              (build_candidate_plans w.sources l.planner_caches user).1
              l.plan_cache
              (prepare_plan w user l).plan_cache)
unfolding prepare_plan
prepare_plan-Stores w user l = elim (Bool-cases l.has_components) [
  | inr n ↦ inl (ap (λ b. (if b then prepared else l).plan_cache) n)
  | inl y ↦
      let opened = ap (λ b. (if b then prepared else l).plan_cache) y in
      elim (prepare_first-Stores w user r fresh) [
        | inl same ↦ inl (opened ∙ same)
        | inr s ↦ inr (
          y,
          record {
            candidate = s.candidate;
            others = s.others;
            quote = s.quote;
            first = s.first;
            quoted = s.quoted;
            stored = opened ∙ s.stored;
          },
        )
      ]
]
  where
    r : Candidates
    r = (build_candidate_plans w.sources l.planner_caches user).1

    fresh : PredictiveLoop
    fresh = record l { planner_caches = (build_candidate_plans w.sources l.planner_caches user).0 }

    prepared : PredictiveLoop
    prepared = prepare_first w user r fresh

after_result-Justified :
    (w : World) (user : Text) (l : PredictiveLoop) (r : HealthFactorResult)
    → check_single w.base_currency w.health user ≡ some (ok (some r))
    → ((after_result w user r l).0.plan_cache ≡ l.plan_cache)
      ⊎ Justified w user l (after_result w user r l).0.plan_cache
unfolding after_result
after_result-Justified w user l r read =
    let (risk, started) =
      update_hf w.settings (w.time user) user r.health_factor r.debt_usd_1e18
        r.total_collateral_base l.risk_set in
    let updated : PredictiveLoop = record l { risk_set = risk } in
    let choose = λ (b : Bool). (if b then prepare_plan w user updated else updated).plan_cache in
    elim (Bool-cases (needs_plan l.prepare_hf_threshold r.health_factor)) [
      | inr n ↦ inl (ap choose n)
      | inl y ↦ elim (prepare_plan-Stores w user updated) [
        | inl same ↦ inl (ap choose y ∙ same)
        | inr (set, s) ↦
            let (h, is_finite, above, below) =
              needs_plan-NeedsPlan l.prepare_hf_threshold r.health_factor y in
            inr (record {
              result = r;
              hf = h;
              read = read;
              is_finite = is_finite;
              near = (above, below);
              components = set;
              stores = record {
                candidate = s.candidate;
                others = s.others;
                quote = s.quote;
                first = s.first;
                quoted = s.quoted;
                stored = ap choose y ∙ s.stored;
              };
            })
      ]
    ]

-- A call of `rescoreUser` leaves the plans as they are, or stores one, and then all that justifies it
-- holds: the health factor read for the user is above 0 and below the threshold, the planner and the
-- swap builder are set, and the plan is that of the planner's first candidate with its quote.
pub rescore_user-Justified :
    (w : World) (user : Text) (l : PredictiveLoop)
    → ((rescore_user w user l).0.plan_cache ≡ l.plan_cache)
      ⊎ Justified w user l (rescore_user w user l).0.plan_cache
unfolding rescore_user
rescore_user-Justified w user l = elim (Option-cases (check_single w.base_currency w.health user)) [
  | inl n ↦ inl (rw (n, rescore_user) refl)
  | inr (some_result, e) ↦ elim (Result-cases some_result) [
    | inr (message, f) ↦ inl (rw (e, f, rescore_user) refl)
    | inl (o, f) ↦ elim (Option-cases o) [
      | inl n ↦ inl (rw (e, f, n, rescore_user) refl)
      | inr (r, g) ↦
          let read : check_single w.base_currency w.health user ≡ some (ok (some r)) =
            e ∙ ap some (f ∙ ap ok g) in
          rw (read, rescore_user) (after_result-Justified w user l r read)
    ]
  ]
]

prepare_first-stored :
    (w : World) (user : Text) (c : CandidatePlan) (cs : List CandidatePlan) (q : SwapQuote)
    (l : PredictiveLoop)
    → quote_for w c ≡ ok q
    → (prepare_first w user (returned (c ∷ cs)) l).plan_cache
      ≡ PlanCache.prepare (prepared_plan user (w.time user) c q) l.plan_cache
unfolding prepare_first
prepare_first-stored w user c cs q l quoted = rw (quoted, prepare_first) refl

-- When the planner and the swap builder are set, the chain says that the user's health factor is
-- above 0 and below the threshold, the planner has a candidate and the swap builder a quote for the
-- first one, then after `rescoreUser` the plan cache serves the plan of that candidate, with its
-- quote, until its time to live has passed.
pub rescore_user-serves :
    (w : World) (user : Text) (l : PredictiveLoop) (r : HealthFactorResult) (c : CandidatePlan)
    (cs : List CandidatePlan) (q : SwapQuote) (now : ℕ)
    → l.has_components ≡ true
    → check_single w.base_currency w.health user ≡ some (ok (some r))
    → needs_plan l.prepare_hf_threshold r.health_factor ≡ true
    → (build_candidate_plans w.sources l.planner_caches user).1 ≡ returned (c ∷ cs)
    → quote_for w c ≡ ok q
    → now - w.time user ≤ l.plan_cache.ttl_ms
    → (PlanCache.get user now (rescore_user w user l).0.plan_cache).1
      ≡ some (prepared_plan user (w.time user) c q)
unfolding rescore_user after_result prepare_plan
rescore_user-serves w user l r c cs q now set read near first quoted young =
    let risk =
      (update_hf w.settings (w.time user) user r.health_factor r.debt_usd_1e18
        r.total_collateral_base l.risk_set).0 in
    let updated : PredictiveLoop = record l { risk_set = risk } in
    let fresh : PredictiveLoop = record updated {
      planner_caches = (build_candidate_plans w.sources l.planner_caches user).0;
    } in
    let plan = prepared_plan user (w.time user) c q in
    let serve = λ (m : PredictiveLoop). (PlanCache.get user now m.plan_cache).1 in
    let best = (build_candidate_plans w.sources l.planner_caches user).1 in
    let planned =
      ap (λ (b : Bool). serve (if b then prepare_plan w user updated else updated)) near
      ∙ ap (λ (b : Bool). serve (if b then prepare_first w user best fresh else updated)) set
      ∙ ap (λ x. serve (prepare_first w user x fresh)) first
      ∙ ap (λ m. (PlanCache.get user now m).1) (prepare_first-stored w user c cs q fresh quoted)
      ∙ get-prepare plan now l.plan_cache young in
    rw (read, rescore_user) planned
