-- ===== src/PredictiveDedupCache/Signals.antt =====
-- Which signals lead to another evaluation.
use liquid_bot.Prelude.{
  ℕ, ap, ◌-◌, ◌*◌, ◌≡◌, refl, ◌∙◌, not, ◌&&◌, ◌||◌, Option, some, List, [], ◌∷◌, ltb, leb,
  if◌then◌else◌, Bool-cases, inl, inr, beq_self,
}
use liquid_bot.Prelude.Text.{Text, text_key}
use liquid_bot.JsMap
use liquid_bot.JsMap.Laws.{get-set}
use liquid_bot.PredictiveDedupCache.{
  CachedCandidate, PredictiveDedupCache, get_cache_key, is_expired, judge, should_evaluate,
  evict_lru, make_space, record_evaluation,
}

make_space_ttl : (key : Text) (c : PredictiveDedupCache) → (make_space key c).ttl_sec ≡ c.ttl_sec
unfolding make_space
make_space_ttl key c =
    elim (Bool-cases (leb c.max_size (JsMap.size c.cache) && not (JsMap.has key c.cache))) [
      | inl y ↦ rw (y, if◌then◌else◌) (same c.access_order)
      | inr n ↦ rw (n, if◌then◌else◌) refl
    ]
  where
    same : (order : List Text) → (evict_lru order c).ttl_sec ≡ c.ttl_sec
    same [] = refl
    same (k ∷ ks) = refl

judge_lem :
    (key : Text) (signal now : ℕ) (cached : CachedCandidate) (c : PredictiveDedupCache)
    → (judge key signal now (some cached) c).1
      ≡ (is_expired now cached c || ltb cached.last_signal_strength signal)
unfolding judge
judge_lem key signal now cached c = elim (Bool-cases (is_expired now cached c)) [
  | inl y ↦ rw (y, if◌then◌else◌) refl
  | inr n ↦
      rw (n, if◌then◌else◌)
        (elim (Bool-cases (ltb cached.last_signal_strength signal)) [
          | inl s ↦ rw (s, if◌then◌else◌) refl
          | inr w ↦ rw (w, if◌then◌else◌) refl
        ])
]

-- After an evaluation was recorded, in a cache of any size, the user is evaluated again for the
-- asset exactly if the time to live has passed or the new signal is stronger.
pub should_evaluate-record_evaluation :
    (user asset : Text) (strength signal block : ℕ) (hf : Option ℕ) (now later : ℕ)
    (c : PredictiveDedupCache)
    → (should_evaluate user asset signal later
        (record_evaluation user asset strength block hf now c)).1
      ≡ (ltb (c.ttl_sec * 1000) (later - now) || ltb strength signal)
unfolding should_evaluate record_evaluation
should_evaluate-record_evaluation user asset strength signal block hf now later c =
    let key = get_cache_key user asset in
    let d = record_evaluation user asset strength block hf now c in
    let cached : CachedCandidate = record {
      user_address = user;
      asset = asset;
      last_evaluated_block = block;
      last_evaluated_timestamp = now;
      last_signal_strength = strength;
      last_hf = hf;
    } in
    ap (λ o. (judge key signal later o d).1)
      (get-set key key cached (make_space key c).cache
        ∙ ap (λ b. if b then some cached else JsMap.get key (make_space key c).cache)
            (beq_self key))
    ∙ judge_lem key signal later cached d
    ∙ ap (λ t. ltb (t * 1000) (later - now) || ltb strength signal) (make_space_ttl key c)
