-- ===== src/MicroVerifyCache/Inflight.antt =====
-- Requests in flight are shared.
use liquid_bot.Prelude.{
  ℕ, ap, sym, ◌≡◌, refl, ◌∙◌, true, some, ltb, if◌then◌else◌, Option-cases, inl, inr, beq_self,
}
use liquid_bot.Prelude.Text.{Text, text_key}
use liquid_bot.JsMap
use liquid_bot.JsMap.Laws.{get-set}
use liquid_bot.MicroVerifyCache.{
  InflightRequest, MicroVerifyCache, is_enabled, get_cache_key, get_or_create_inflight,
}

-- The request whose promise was returned is in flight.
abbrev Tracked : Text → MicroVerifyCache → MicroVerifyCache × ℕ → Type 0
Tracked key c r =
    (q : InflightRequest) × (JsMap.get key r.0.inflight_requests ≡ some q)
    × (r.1 ≡ q.promise)
    × (r.0.ttl_ms ≡ c.ttl_ms)

get_or_create_inflight-Tracked :
    (user tag : Text) (fresh now : ℕ) (c : MicroVerifyCache)
    → is_enabled c ≡ true
    → Tracked (get_cache_key user tag) c (get_or_create_inflight user tag fresh now c)
unfolding get_or_create_inflight
get_or_create_inflight-Tracked user tag fresh now c y =
    elim (Option-cases (JsMap.get (get_cache_key user tag) c.inflight_requests)) [
      | inl n ↦
          rw (y, if◌then◌else◌)
            (rw (n, get_or_create_inflight)
              (
                record { promise = fresh; timestamp = now },
                get-set (get_cache_key user tag) (get_cache_key user tag) _ c.inflight_requests
                    ∙ rw (beq_self (get_cache_key user tag), if◌then◌else◌) refl,
                refl,
                refl,
              ))
      | inr (q, x) ↦ rw (y, if◌then◌else◌) (rw (x, get_or_create_inflight) (q, x, refl, refl))
    ]

shared :
    (user tag : Text) (fresh now : ℕ) (c : MicroVerifyCache) (q : InflightRequest)
    → is_enabled c ≡ true
    → JsMap.get (get_cache_key user tag) c.inflight_requests ≡ some q
    → (get_or_create_inflight user tag fresh now c).1 ≡ q.promise
unfolding get_or_create_inflight
shared user tag fresh now c q y x = rw (y, if◌then◌else◌) (rw (x, get_or_create_inflight) refl)

-- In an enabled cache, while a request is in flight, a second one for the same user and block tag gets its promise, and
-- no new one.
pub get_or_create_inflight_twice :
    (user tag : Text) (first second now later : ℕ) (c : MicroVerifyCache)
    → is_enabled c ≡ true
    → (get_or_create_inflight user tag second later
        (get_or_create_inflight user tag first now c).0).1
      ≡ (get_or_create_inflight user tag first now c).1
get_or_create_inflight_twice user tag first second now later c y =
    let (q, found, same, ttl) = get_or_create_inflight-Tracked user tag first now c y in
    shared user tag second later (get_or_create_inflight user tag first now c).0 q
      (ap (λ t. ltb 0 t) ttl ∙ y) found
    ∙ sym same
