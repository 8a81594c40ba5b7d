-- ===== src/PlanCache/Fresh.antt =====
-- What the cache may return, against the log of its calls.
use mathlib.Core.Path.{subst}
use liquid_bot.Prelude.{
  ℕ, ◌-◌, ◌≡◌, refl, sym, ap, ◌∙◌, not, ◌&&◌, Option, none, some, List, [], ◌∷◌, arith, ltb, leb,
  if◌then◌else◌, Bool-cases, Option-cases, inl, inr,
}
use liquid_bot.Prelude.Text.{Text, text_key, to_lower_case, truthy}
use liquid_bot.JsMap
use liquid_bot.JsMap.{JsMap, Distinct}
use liquid_bot.JsMap.Laws.{get-delete}
use liquid_bot.JsMap.Evict.{extreme, lower}
use liquid_bot.JsMap.Bounded.{evict, make_room, bounded_set}
use liquid_bot.JsMap.Bounded.Laws.{get-bounded_set_self, get-bounded_set_back}
use liquid_bot.PlanCache.{
  PreparedPlan, PlanCache, create, evict_oldest, make_space, prepare, serve, get, invalidate, clear,
}

abbrev pub age_rank : PreparedPlan → ℕ
age_rank p = p.created_at

-- The cache map and the settings after `make_space`.
make_space_lem :
    (k : Text) (c : PlanCache)
    → ((make_space k c).cache ≡ make_room lower age_rank truthy c.max_users k c.cache)
      × ((make_space k c).max_users ≡ c.max_users)
      × ((make_space k c).ttl_ms ≡ c.ttl_ms)
unfolding make_space make_room evict_oldest evict
make_space_lem k c =
    elim (Bool-cases (leb c.max_users (JsMap.size c.cache) && not (JsMap.has k c.cache))) [
      | inr f ↦ rw (f, if◌then◌else◌) (refl, refl, refl)
      | inl t ↦
          rw (t, if◌then◌else◌)
            (elim (Option-cases (extreme lower age_rank none c.cache)) [
              | inl n ↦ rw (n, evict_oldest) (rw (n, evict) (refl, refl, refl))
              | inr ((j, r), x) ↦ elim (Bool-cases (truthy j)) [
                | inl y ↦
                    rw (x, evict_oldest) (rw (x, evict) (rw (y, if◌then◌else◌) (refl, refl, refl)))
                | inr z ↦
                    rw (x, evict_oldest) (rw (x, evict) (rw (z, if◌then◌else◌) (refl, refl, refl)))
              ]
            ])
    ]

pub prepare_lem :
    (plan : PreparedPlan) (c : PlanCache)
    → ((prepare plan c).cache
        ≡ bounded_set lower age_rank truthy c.max_users (to_lower_case plan.user) plan c.cache)
      × ((prepare plan c).max_users ≡ c.max_users)
      × ((prepare plan c).ttl_ms ≡ c.ttl_ms)
unfolding prepare bounded_set
prepare_lem plan c =
    let (a, b, d) = make_space_lem (to_lower_case plan.user) c in
    (ap (JsMap.set (to_lower_case plan.user) plan) a, b, d)

pub data Call : Type 0 where
  prepares : PreparedPlan → Call
  gets : Text → ℕ → Call
  invalidates : Text → Call
  clears : Call

unfoldable pub step : Call → PlanCache → PlanCache
step (prepares plan) c = prepare plan c
step (gets user now) c = (get user now c).0
step (invalidates user) c = invalidate user c
step clears c = clear c

-- The latest call first.
unfoldable pub after_calls : List Call → PlanCache → PlanCache
unfolding step
after_calls [] c = c
after_calls (call ∷ earlier) c = step call (after_calls earlier c)

-- The plan prepared last for a user, unless it was invalidated since.
unfoldable pub latest : Text → List Call → Option PreparedPlan
latest user [] = none
latest user (prepares plan ∷ earlier) =
    if text_key.beq (to_lower_case plan.user) user then some plan else latest user earlier
latest user (gets u now ∷ earlier) = latest user earlier
latest user (invalidates u ∷ earlier) =
    if text_key.beq (to_lower_case u) user then none else latest user earlier
latest user (clears ∷ earlier) = none

-- The map holds only latest plans.
abbrev pub IsLatest : List Call → JsMap Text PreparedPlan → Type 0
IsLatest calls m = (u : Text) (p : PreparedPlan) → JsMap.get u m ≡ some p → latest u calls ≡ some p

bounded_set-IsLatest :
    (limit : ℕ) (plan : PreparedPlan) (earlier : List Call) (m : JsMap Text PreparedPlan)
    → IsLatest earlier m
    → IsLatest
        (prepares plan ∷ earlier)
        (bounded_set lower age_rank truthy limit (to_lower_case plan.user) plan m)
unfolding latest
bounded_set-IsLatest limit plan earlier m h u p g =
    elim (Bool-cases (text_key.beq (to_lower_case plan.user) u)) [
      | inl y ↦
          rw (y, if◌then◌else◌)
            (sym (get-bounded_set_self lower age_rank truthy limit (to_lower_case plan.user) plan m)
              ∙ ap
                  (λ k.
                    JsMap.get k
                      (bounded_set lower age_rank truthy limit (to_lower_case plan.user) plan m))
                  ((text_key.beq_iff (to_lower_case plan.user) u).0 y)
              ∙ g)
      | inr n ↦
          rw (n, if◌then◌else◌)
            (h u p (
              get-bounded_set_back lower age_rank truthy limit (to_lower_case plan.user) u plan p m
                n g))
    ]

delete-IsLatest :
    (k : Text) (calls : List Call) (m : JsMap Text PreparedPlan)
    → IsLatest calls m
    → IsLatest calls (JsMap.delete k m)
delete-IsLatest k calls m h u p g = ground (arith, get-delete k u m, h u p)

serve-IsLatest :
    (k : Text) (now : ℕ) (o : Option PreparedPlan) (c : PlanCache) (calls : List Call)
    → IsLatest calls c.cache
    → IsLatest calls (serve k now o c).0.cache
unfolding serve
serve-IsLatest k now none c calls h = h
serve-IsLatest k now (some plan) c calls h =
    elim (Bool-cases (ltb c.ttl_ms (now - plan.created_at))) [
      | inl y ↦ rw (y, if◌then◌else◌) (delete-IsLatest k calls c.cache h)
      | inr n ↦ rw (n, if◌then◌else◌) h
    ]

nothing-IsLatest : (calls : List Call) → IsLatest calls []
unfolding JsMap.get
nothing-IsLatest calls u p g = absurd cc

deleted-IsLatest :
    (v : Text) (earlier : List Call) (m : JsMap Text PreparedPlan)
    → IsLatest earlier m
    → IsLatest (invalidates v ∷ earlier) (JsMap.delete (to_lower_case v) m)
unfolding latest
deleted-IsLatest v earlier m h u p g = ground (arith, get-delete (to_lower_case v) u m, h u p)

pub after_calls-IsLatest :
    (calls : List Call) (ttl users : ℕ)
    → IsLatest calls (after_calls calls (create ttl users)).cache
unfolding after_calls create get invalidate clear latest
after_calls-IsLatest [] ttl users = nothing-IsLatest []
after_calls-IsLatest (prepares plan ∷ earlier) ttl users =
    let c = after_calls earlier (create ttl users) in
    subst (IsLatest (prepares plan ∷ earlier)) (sym (prepare_lem plan c).0) (
      bounded_set-IsLatest c.max_users plan earlier c.cache
        (after_calls-IsLatest earlier ttl users))
after_calls-IsLatest (gets u now ∷ earlier) ttl users =
    let c = after_calls earlier (create ttl users) in
    serve-IsLatest (to_lower_case u) now (JsMap.get (to_lower_case u) c.cache) c
      (gets u now ∷ earlier) (after_calls-IsLatest earlier ttl users)
after_calls-IsLatest (invalidates u ∷ earlier) ttl users =
    deleted-IsLatest u earlier (after_calls earlier (create ttl users)).cache
      (after_calls-IsLatest earlier ttl users)
after_calls-IsLatest (clears ∷ earlier) ttl users = nothing-IsLatest (clears ∷ earlier)
