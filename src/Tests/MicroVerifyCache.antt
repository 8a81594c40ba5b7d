-- ===== src/Tests/MicroVerifyCache.antt =====
-- One read, cached for two seconds.
use liquid_bot.Prelude.{◌≡◌, refl, some, [], arith}
use liquid_bot.Prelude.Text.{codes, text_eq, text_key, to_lower_case, lower_unit}
use liquid_bot.JsMap
use liquid_bot.JsMap.{includes}
use liquid_bot.MicroVerifyCache.{
  CachedHfResult, MicroVerifyCache, get_cache_key, starts_with, serve, get, set, delete_picked,
  invalidate_user, get_or_create_inflight, settle, clear, cleanup,
}
use liquid_bot.MicroVerifyCache.Keys.{HasNoColon}
use liquid_bot.MicroVerifyCache.Reads.{get-settle_invalidated}

program : Unit {0}
unfolding text_eq to_lower_case lower_unit JsMap.get JsMap.has JsMap.set JsMap.delete includes
    get_cache_key starts_with serve get set delete_picked invalidate_user get_or_create_inflight
    settle clear cleanup
program = tt

abbrev empty : MicroVerifyCache
empty = record {
  cache = [];
  inflight_requests = [];
  ttl_ms = 2000;
  hits = 0;
  misses = 0;
  inflight_shares = 0;
  invalidations = 0;
}

abbrev result : CachedHfResult
result = record {
  user = codes "0xA1";
  block_tag = codes "latest";
  hf = 1;
  total_collateral_base = 1;
  total_debt_base = 1;
  available_borrows_base = 0;
  current_liquidation_threshold = 8000;
  ltv = 7500;
  timestamp = 5;
}

abbrev filled : MicroVerifyCache
filled = set (codes "0xA1") (codes "latest") result 1000 empty

gone : (invalidate_user (codes "0xa1") filled).cache ≡ []
unfolding program
gone = refl

counted : (invalidate_user (codes "0xa1") filled).invalidations ≡ 1
unfolding program
counted = refl

cleaned : (cleanup 3000 filled).cache ≡ []
unfolding program
cleaned = refl

alice-HasNoColon : HasNoColon (to_lower_case (codes "0xA1"))
unfolding program
alice-HasNoColon = (refl, (refl, (refl, (refl, tt))))

get-settle_invalidated_example :
    (get (codes "0xA1") (codes "latest") 1500 (
      settle
        (codes "0xA1")
        (codes "latest")
        (some result)
        1000
        (invalidate_user (codes "0xA1") empty))).1
    ≡ some result
get-settle_invalidated_example =
    get-settle_invalidated (codes "0xA1") (codes "latest") result 1000 1500 empty refl (omega arith)
