-- ===== src/Tests/PredictiveDedupCache.antt =====
-- A cache of one entry for a minute.
use liquid_bot.Prelude.{◌-◌, ◌*◌, ◌≡◌, refl, ◌||◌, none, [], ◌∷◌, ltb}
use liquid_bot.Prelude.Text.{
  codes, text_eq, text_key, to_lower_case, lower_unit, to_upper_case, upper_unit,
}
use liquid_bot.JsMap
use liquid_bot.PredictiveDedupCache.{
  PredictiveDedupCache, get_cache_key, splice_out, touch, expire, judge, should_evaluate, evict_lru,
  make_space, record_evaluation, serve, get, prune_loop, prune_expired, clear,
}
use liquid_bot.PredictiveDedupCache.Signals.{should_evaluate-record_evaluation}

program : Unit {0}
unfolding text_eq to_lower_case lower_unit to_upper_case upper_unit JsMap.get JsMap.has JsMap.set
    JsMap.delete get_cache_key splice_out touch expire judge should_evaluate evict_lru make_space
    record_evaluation serve get prune_loop prune_expired clear
program = tt

abbrev empty : PredictiveDedupCache
empty = record { cache = []; access_order = []; ttl_sec = 60; max_size = 1 }

abbrev one_entry : PredictiveDedupCache
one_entry = record_evaluation (codes "0xA1") (codes "weth") 5 7 none 1000 empty

order_of_two :
    (record_evaluation (codes "0xb0") (codes "weth") 5 7 none 2000 one_entry).access_order
    ≡ codes "0xb0:WETH" ∷ []
unfolding program
order_of_two = refl

pruned_one : (prune_expired 61001 one_entry).1 ≡ 1
unfolding program
pruned_one = refl

-- The theorem at this input.
should_evaluate-record_evaluation_example :
    (should_evaluate
      (codes "0xA1")
      (codes "weth")
      4
      2000
      (record_evaluation (codes "0xA1") (codes "weth") 5 7 none 1000 empty)).1
    ≡ (ltb (empty.ttl_sec * 1000) (2000 - 1000) || ltb 5 4)
should_evaluate-record_evaluation_example =
    should_evaluate-record_evaluation (codes "0xA1") (codes "weth") 5 4 7 none 1000 2000 empty
