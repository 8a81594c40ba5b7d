-- ===== src/PlanCache/Valid.antt =====
-- What the plan cache keeps of its settings and its size through its calls.
use mathlib.Core.Path.{subst}
use liquid_bot.Prelude.{
  ℕ, ◌-◌, ◌≤◌, ◌≡◌, refl, sym, ap, ◌∙◌, true, Option, none, some, List, [], ◌∷◌, arith, max, ltb,
  if◌then◌else◌, Bool-cases, inl, inr, All,
}
use liquid_bot.Prelude.Text.{Text, text_key, to_lower_case, truthy, truthy-to_lower_case}
use liquid_bot.JsMap
use liquid_bot.JsMap.{JsMap, Distinct}
use liquid_bot.JsMap.Laws.{Distinct-delete, size-delete-le}
use liquid_bot.JsMap.Entries.{All-delete}
use liquid_bot.JsMap.Evict.{lower, ltb_irrefl, lower_trans, lower_chain}
use liquid_bot.JsMap.Bounded.{bounded_set}
use liquid_bot.JsMap.Bounded.Laws.{
  bounded_set-Distinct, bounded_set-All, bounded_set-size, AllTruthy,
}
use liquid_bot.PlanCache.{
  PreparedPlan, PlanCache, create, or_default, prepare, serve, get, invalidate, clear,
}
use liquid_bot.PlanCache.Fresh.{
  age_rank, prepare_lem, Call, prepares, gets, invalidates, clears, after_calls,
}

-- The settings, and a map that is no larger than they allow.
pub record IsValid (ttl users : ℕ) (c : PlanCache) : Type 0 where
  pub ttl_same : c.ttl_ms ≡ ttl
  pub users_same : c.max_users ≡ users
  pub distinct : Distinct c.cache
  pub named : AllTruthy lower age_rank truthy c.cache
  pub bounded : JsMap.size c.cache ≤ max users 1

delete-IsValid :
    {ttl users : ℕ} (k : Text) (c : PlanCache) (d : PlanCache)
    → IsValid ttl users c
    → d.cache ≡ JsMap.delete k c.cache
    → d.ttl_ms ≡ c.ttl_ms
    → d.max_users ≡ c.max_users
    → IsValid ttl users d
delete-IsValid k c d v m t u = record {
  ttl_same = t ∙ v.ttl_same;
  users_same = u ∙ v.users_same;
  distinct = subst Distinct (sym m) (Distinct-delete k c.cache v.distinct);
  named =
      subst (AllTruthy lower age_rank truthy) (sym m)
        (All-delete (λ en. truthy en.0 ≡ true) k c.cache v.named);
  bounded = ground (arith, v.bounded, size-delete-le k c.cache, ap JsMap.size m);
}

serve-IsValid :
    {ttl users : ℕ} (k : Text) (now : ℕ) (o : Option PreparedPlan) (c : PlanCache)
    → IsValid ttl users c
    → IsValid ttl users (serve k now o c).0
unfolding serve
serve-IsValid k now none c v = record {
  ttl_same = v.ttl_same;
  users_same = v.users_same;
  distinct = v.distinct;
  named = v.named;
  bounded = v.bounded;
}
serve-IsValid k now (some plan) c v = elim (Bool-cases (ltb c.ttl_ms (now - plan.created_at))) [
  | inl y ↦ rw (y, if◌then◌else◌) (delete-IsValid k c _ v refl refl refl)
  | inr n ↦
      rw (n, if◌then◌else◌)
        (record {
          ttl_same = v.ttl_same;
          users_same = v.users_same;
          distinct = v.distinct;
          named = v.named;
          bounded = v.bounded;
        })
]

prepare-IsValid :
    {ttl users : ℕ} (plan : PreparedPlan) (c : PlanCache)
    → truthy plan.user ≡ true
    → IsValid ttl users c
    → IsValid ttl users (prepare plan c)
prepare-IsValid {users = users} plan c name v =
    let (m, u, t) = prepare_lem plan c in
    record {
      ttl_same = t ∙ v.ttl_same;
      users_same = u ∙ v.users_same;
      distinct =
          subst Distinct (sym m)
            (bounded_set-Distinct lower age_rank truthy _ _ plan c.cache v.distinct);
      named = subst (AllTruthy lower age_rank truthy) (sym m) (
          bounded_set-All lower age_rank truthy (λ en. truthy en.0 ≡ true) _ _ plan c.cache
            (truthy-to_lower_case plan.user name) v.named);
      bounded =
          subst (λ r. JsMap.size r ≤ max users 1) (sym m)
            (subst
              (λ n.
                JsMap.size
                  (bounded_set lower age_rank truthy n (to_lower_case plan.user) plan c.cache)
                ≤ max users 1)
              (sym v.users_same)
              (bounded_set-size lower age_rank truthy ltb_irrefl lower_trans lower_chain _ _ plan
                c.cache v.distinct v.named v.bounded));
    }

-- Users are not the empty string.
abbrev pub IsNamed : Call → Type 0
IsNamed (prepares plan) = truthy plan.user ≡ true
IsNamed (gets user now) = Unit
IsNamed (invalidates user) = Unit
IsNamed clears = Unit

pub create-IsValid :
    (plan_ttl_ms plan_max_users : ℕ)
    → IsValid
        (or_default plan_ttl_ms 15000)
        (or_default plan_max_users 2000)
        (create plan_ttl_ms plan_max_users)
unfolding create
create-IsValid plan_ttl_ms plan_max_users = record {
  ttl_same = refl;
  users_same = refl;
  distinct = tt;
  named = tt;
  bounded = omega arith;
}

pub after_calls-IsValid :
    {ttl users : ℕ} (calls : List Call) (c : PlanCache)
    → All IsNamed calls
    → IsValid ttl users c
    → IsValid ttl users (after_calls calls c)
unfolding after_calls get invalidate clear
after_calls-IsValid [] c h v = v
after_calls-IsValid (prepares plan ∷ earlier) c h v =
    prepare-IsValid plan (after_calls earlier c) h.0 (after_calls-IsValid earlier c h.1 v)
after_calls-IsValid (gets user now ∷ earlier) c h v =
    let d = after_calls earlier c in
    serve-IsValid (to_lower_case user) now (JsMap.get (to_lower_case user) d.cache) d
      (after_calls-IsValid earlier c h.1 v)
after_calls-IsValid (invalidates user ∷ earlier) c h v =
    delete-IsValid (to_lower_case user) (after_calls earlier c) _
      (after_calls-IsValid earlier c h.1 v) refl refl refl
after_calls-IsValid (clears ∷ earlier) c h v =
    let w = after_calls-IsValid earlier c h.1 v in
    record {
      ttl_same = w.ttl_same;
      users_same = w.users_same;
      distinct = tt;
      named = tt;
      bounded = omega arith;
    }

-- After any history of calls for users that are not empty strings, the cache has at most as many
-- plans as `PLAN_MAX_USERS` says (2000 where that is 0).
pub after_calls-bounded :
    (calls : List Call) (plan_ttl_ms plan_max_users : ℕ)
    → All IsNamed calls
    → JsMap.size (after_calls calls (create plan_ttl_ms plan_max_users)).cache
      ≤ or_default plan_max_users 2000
after_calls-bounded calls plan_ttl_ms plan_max_users h =
    let v =
      after_calls-IsValid calls (create plan_ttl_ms plan_max_users) h
        (create-IsValid plan_ttl_ms plan_max_users) in
    ground (arith, v.bounded)
