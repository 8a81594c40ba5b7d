-- ===== src/MicroVerifyCache.antt =====
-- backend/src/services/microVerify/MicroVerifyCache.ts: recent reads of health factors, and the
-- reads in flight. A promise is a number; what its callbacks do is `settle`. A block tag is its
-- text. Time is an argument.
pub mod Keys
pub mod Reads
pub mod Inflight
use liquid_bot.Prelude.{
  ℕ, ◌+◌, ◌-◌, Bool, true, false, not, ◌&&◌, Option, none, some, List, [], ◌∷◌, ◌++◌, ltb, ◌==◌,
  if◌then◌else◌,
}
use liquid_bot.Prelude.Text.{Text, codes, text_key, to_lower_case}
use liquid_bot.JsMap
use liquid_bot.JsMap.{JsMap, keys}

pub record CachedHfResult : Type 0 where
  pub user : Text
  pub block_tag : Text
  pub hf : ℕ
  pub total_collateral_base : ℕ
  pub total_debt_base : ℕ
  pub available_borrows_base : ℕ
  pub current_liquidation_threshold : ℕ
  pub ltv : ℕ
  pub timestamp : ℕ

pub record CacheEntry : Type 0 where
  pub result : CachedHfResult
  pub expires_at : ℕ

pub record InflightRequest : Type 0 where
  pub promise : ℕ
  pub timestamp : ℕ

pub record MicroVerifyCache : Type 0 where
  pub cache : JsMap Text CacheEntry
  pub inflight_requests : JsMap Text InflightRequest
  pub ttl_ms : ℕ
  pub hits : ℕ
  pub misses : ℕ
  pub inflight_shares : ℕ
  pub invalidations : ℕ

abbrev pub inflight_stale_threshold_ms : ℕ
inflight_stale_threshold_ms = 10000

abbrev pub is_enabled : MicroVerifyCache → Bool
is_enabled c = ltb 0 c.ttl_ms

abbrev pub colon : ℕ
colon = b':'

unfoldable pub get_cache_key : Text → Text → Text
get_cache_key user block_tag = to_lower_case user ++ (colon ∷ block_tag)

-- `s.startsWith(p)`
unfoldable pub starts_with : Text → Text → Bool
starts_with s [] = true
starts_with [] (c ∷ p) = false
starts_with (b ∷ s) (c ∷ p) = b == c && starts_with s p

abbrev pub is_valid : ℕ → CacheEntry → Bool
is_valid now entry = ltb now entry.expires_at

-- `get` for the entry that was found.
unfoldable pub serve :
    Text → ℕ → Option CacheEntry → MicroVerifyCache → MicroVerifyCache × Option CachedHfResult
serve key now none c = (record c { misses = c.misses + 1 }, none)
serve key now (some entry) c =
    if not (is_valid now entry)
    then (record c { cache = JsMap.delete key c.cache; misses = c.misses + 1 }, none)
    else (record c { hits = c.hits + 1 }, some entry.result)

unfoldable pub get : Text → Text → ℕ → MicroVerifyCache → MicroVerifyCache × Option CachedHfResult
unfolding serve get_cache_key
get user block_tag now c =
    let key = get_cache_key user block_tag in
    if not (is_enabled c) then (c, none) else serve key now (JsMap.get key c.cache) c

unfoldable pub set : Text → Text → CachedHfResult → ℕ → MicroVerifyCache → MicroVerifyCache
unfolding get_cache_key
set user block_tag result now c = if not (is_enabled c) then c else record c {
  cache =
      JsMap.set (get_cache_key user block_tag)
        (record { result = result; expires_at = now + c.ttl_ms }) c.cache;
}

-- The loops that delete the visited keys that a test picks, and their count.
unfoldable pub delete_picked {ℓ} :
    {V : Type ℓ} → (Text → Bool) → List Text → JsMap Text V → JsMap Text V × ℕ
delete_picked pick [] m = (m, 0)
delete_picked pick (key ∷ ks) m =
    let (rest, count) = delete_picked pick ks (if pick key then JsMap.delete key m else m) in
    (rest, (if pick key then 1 else 0) + count)

unfoldable pub invalidate_user : Text → MicroVerifyCache → MicroVerifyCache
unfolding delete_picked starts_with
invalidate_user user c =
    let prefix = to_lower_case user ++ (colon ∷ []) in
    let (cache, count) = delete_picked (λ key. starts_with key prefix) (keys c.cache) c.cache in
    let (requests, _) =
      delete_picked (λ key. starts_with key prefix) (keys c.inflight_requests)
        c.inflight_requests in
    if not (is_enabled c) then c else record c {
      cache = cache;
      inflight_requests = requests;
      invalidations = if ltb 0 count then c.invalidations + 1 else c.invalidations;
    }

-- `getOrCreateInflight`: the promise of the request in flight, or `fresh`, that of the new one.
unfoldable pub get_or_create_inflight :
    Text → Text → ℕ → ℕ → MicroVerifyCache → MicroVerifyCache × ℕ
unfolding get_cache_key
get_or_create_inflight user block_tag fresh now c =
    let key = get_cache_key user block_tag in
    if not (is_enabled c) then (c, fresh) else elim (JsMap.get key c.inflight_requests) [
      | none ↦ (
        record c {
          inflight_requests =
              JsMap.set key (record { promise = fresh; timestamp = now }) c.inflight_requests;
        },
        fresh,
      )
      | some request ↦ (record c { inflight_shares = c.inflight_shares + 1 }, request.promise)
    ]

-- The callbacks of a new request, on its result; `none` is `null` or an error.
unfoldable pub settle :
    Text → Text → Option CachedHfResult → ℕ → MicroVerifyCache → MicroVerifyCache
unfolding set get_cache_key
settle user block_tag none now c = record c {
  inflight_requests = JsMap.delete (get_cache_key user block_tag) c.inflight_requests;
}
settle user block_tag (some result) now c =
    let d = set user block_tag result now c in
    record d { inflight_requests = JsMap.delete (get_cache_key user block_tag) d.inflight_requests }

abbrev pub is_expired : ℕ → Option CacheEntry → Bool
is_expired now none = false
is_expired now (some entry) = not (is_valid now entry)

abbrev pub is_stale : ℕ → Option InflightRequest → Bool
is_stale now none = false
is_stale now (some request) = ltb inflight_stale_threshold_ms (now - request.timestamp)

unfoldable pub cleanup : ℕ → MicroVerifyCache → MicroVerifyCache
unfolding delete_picked
cleanup now c = if not (is_enabled c) then c else record c {
  cache = (delete_picked (λ key. is_expired now (JsMap.get key c.cache)) (keys c.cache) c.cache).0;
  inflight_requests =
      (delete_picked (λ key. is_stale now (JsMap.get key c.inflight_requests))
        (keys c.inflight_requests) c.inflight_requests).0;
}

unfoldable pub clear : MicroVerifyCache → MicroVerifyCache
clear c = record c { cache = []; inflight_requests = [] }
