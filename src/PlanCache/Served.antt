-- ===== src/PlanCache/Served.antt =====
-- The results of `get`, and the size of the cache.
use mathlib.Core.Path.{subst}
use liquid_bot.Prelude.{
  ℕ, ◌+◌, ◌-◌, ◌≤◌, ◌≡◌, refl, sym, ap, ◌∙◌, Option, none, some, List, arith, ltb, if◌then◌else◌,
  Bool-cases, inl, inr, All,
}
use liquid_bot.Prelude.Text.{Text, text_key, to_lower_case, truthy}
use liquid_bot.JsMap
use liquid_bot.JsMap.{JsMap, Distinct}
use liquid_bot.JsMap.Evict.{lower}
use liquid_bot.JsMap.Bounded.Laws.{get-bounded_set_self}
use liquid_bot.PlanCache.{PreparedPlan, PlanCache, create, or_default, prepare, serve, get}
use liquid_bot.PlanCache.Fresh.{
  age_rank, prepare_lem, Call, after_calls, latest, after_calls-IsLatest,
}
use liquid_bot.PlanCache.Valid.{IsNamed, create-IsValid, after_calls-IsValid}

-- What `get` may return after the calls.
abbrev pub Served : List Call → ℕ → Text → ℕ → PlanCache → PlanCache × Option PreparedPlan → Type 0
Served calls plan_ttl_ms user now c (d, none) =
    (d.stats.misses ≡ c.stats.misses + 1) × (d.stats.hits ≡ c.stats.hits)
Served calls plan_ttl_ms user now c (d, some plan) =
    (latest (to_lower_case user) calls ≡ some plan)
    × (now - plan.created_at ≤ or_default plan_ttl_ms 15000)
    × (d.stats.hits ≡ c.stats.hits + 1)
    × (d.stats.misses ≡ c.stats.misses)

serve-Served :
    (calls : List Call) (plan_ttl_ms : ℕ) (user : Text) (now : ℕ) (c : PlanCache)
    (o : Option PreparedPlan)
    → c.ttl_ms ≡ or_default plan_ttl_ms 15000
    → ((p : PreparedPlan) → o ≡ some p → latest (to_lower_case user) calls ≡ some p)
    → Served calls plan_ttl_ms user now c (serve (to_lower_case user) now o c)
unfolding serve
serve-Served calls plan_ttl_ms user now c none t l = (refl, refl)
serve-Served calls plan_ttl_ms user now c (some plan) t l =
    elim (Bool-cases (ltb c.ttl_ms (now - plan.created_at))) [
      | inl y ↦ rw (y, if◌then◌else◌) (refl, refl)
      | inr n ↦ rw (n, if◌then◌else◌) (l plan refl, ground arith, refl, refl)
    ]

-- After any history of calls for users that are not empty strings, `get` returns either the plan
-- prepared last for the user and not invalidated since, within its time to live, and counts a hit,
-- or nothing, and counts a miss.
pub get-Served :
    (calls : List Call) (plan_ttl_ms plan_max_users : ℕ) (user : Text) (now : ℕ)
    → All IsNamed calls
    → Served calls plan_ttl_ms user now
        (after_calls calls (create plan_ttl_ms plan_max_users))
        (get user now (after_calls calls (create plan_ttl_ms plan_max_users)))
unfolding get
get-Served calls plan_ttl_ms plan_max_users user now h =
    let c = after_calls calls (create plan_ttl_ms plan_max_users) in
    let v =
      after_calls-IsValid calls (create plan_ttl_ms plan_max_users) h
        (create-IsValid plan_ttl_ms plan_max_users) in
    serve-Served calls plan_ttl_ms user now c (JsMap.get (to_lower_case user) c.cache) v.ttl_same
      (λ p g. after_calls-IsLatest calls plan_ttl_ms plan_max_users (to_lower_case user) p g)

served :
    (plan : PreparedPlan) (now : ℕ) (c : PlanCache) (k : Text)
    → now - plan.created_at ≤ c.ttl_ms
    → (serve k now (some plan) c).1 ≡ some plan
unfolding serve
served plan now c k young = elim (Bool-cases (ltb c.ttl_ms (now - plan.created_at))) [
  | inl y ↦ absurd (ground arith)
  | inr n ↦ rw (n, if◌then◌else◌) refl
]

-- A plan that was just prepared, in a cache of any size, is served while it is no older than the
-- time to live.
pub get-prepare :
    (plan : PreparedPlan) (now : ℕ) (c : PlanCache)
    → now - plan.created_at ≤ c.ttl_ms
    → (get plan.user now (prepare plan c)).1 ≡ some plan
unfolding get
get-prepare plan now c young =
    let k = to_lower_case plan.user in
    let found =
      ap (JsMap.get k) (prepare_lem plan c).0
      ∙ get-bounded_set_self lower age_rank truthy c.max_users k plan c.cache in
    ap (λ o. (serve k now o (prepare plan c)).1) found
    ∙ served plan now (prepare plan c) k
        (subst (λ t. now - plan.created_at ≤ t) (sym (prepare_lem plan c).2) young)
