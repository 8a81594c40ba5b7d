-- ===== src/PredictiveDedupCache.antt =====
-- backend/src/predictive/PredictiveDedupCache.ts: the candidates evaluated lately, the least
-- recently used of which leaves first. A signal strength is a whole number; time, in milliseconds,
-- is an argument.
pub mod Signals
use liquid_bot.Prelude.{
  ℕ, ◌+◌, ◌-◌, ◌*◌, Bool, true, false, not, ◌&&◌, Option, none, some, List, [], ◌∷◌, ◌++◌, ltb, leb,
  if◌then◌else◌,
}
use liquid_bot.Prelude.Text.{Text, text_key, to_lower_case, to_upper_case, truthy}
use liquid_bot.JsMap
use liquid_bot.JsMap.{JsMap, keys}

pub record CachedCandidate : Type 0 where
  pub user_address : Text
  pub asset : Text
  pub last_evaluated_block : ℕ
  pub last_evaluated_timestamp : ℕ
  pub last_signal_strength : ℕ
  pub last_hf : Option ℕ

pub record PredictiveDedupCache : Type 0 where
  pub cache : JsMap Text CachedCandidate
  pub access_order : List Text
  pub ttl_sec : ℕ
  pub max_size : ℕ

unfoldable pub get_cache_key : Text → Text → Text
get_cache_key user_address asset = to_lower_case user_address ++ (b':' ∷ to_upper_case asset)

-- `indexOf` and `splice`: the first occurrence goes.
unfoldable pub splice_out : Text → List Text → List Text
splice_out key [] = []
splice_out key (k ∷ ks) = if text_key.beq k key then ks else k ∷ splice_out key ks

-- The key becomes the one used last.
unfoldable pub touch : Text → List Text → List Text
unfolding splice_out
touch key order = splice_out key order ++ (key ∷ [])

-- An expired entry goes.
unfoldable pub expire : Text → PredictiveDedupCache → PredictiveDedupCache
unfolding splice_out
expire key c = record c {
  cache = JsMap.delete key c.cache;
  access_order = splice_out key c.access_order;
}

abbrev pub is_expired : ℕ → CachedCandidate → PredictiveDedupCache → Bool
is_expired now cached c = ltb (c.ttl_sec * 1000) (now - cached.last_evaluated_timestamp)

-- `shouldEvaluate` for the entry that was found.
unfoldable pub judge :
    Text → ℕ → ℕ → Option CachedCandidate → PredictiveDedupCache → PredictiveDedupCache × Bool
unfolding expire touch
judge key signal_strength now none c = (c, true)
judge key signal_strength now (some cached) c =
    if is_expired now cached c
    then (expire key c, true)
    else if ltb cached.last_signal_strength signal_strength
    then (c, true)
    else (record c { access_order = touch key c.access_order }, false)

unfoldable pub should_evaluate :
    Text → Text → ℕ → ℕ → PredictiveDedupCache → PredictiveDedupCache × Bool
unfolding judge get_cache_key
should_evaluate user_address asset signal_strength now c =
    let key = get_cache_key user_address asset in
    judge key signal_strength now (JsMap.get key c.cache) c

-- The least recently used key leaves; `shift` of the empty order and an empty key remove nothing.
unfoldable pub evict_lru : List Text → PredictiveDedupCache → PredictiveDedupCache
evict_lru [] c = c
evict_lru (lru_key ∷ order) c = record c {
  cache = if truthy lru_key then JsMap.delete lru_key c.cache else c.cache;
  access_order = order;
}

unfoldable pub make_space : Text → PredictiveDedupCache → PredictiveDedupCache
unfolding evict_lru
make_space key c =
    if leb c.max_size (JsMap.size c.cache) && not (JsMap.has key c.cache)
    then evict_lru c.access_order c
    else c

unfoldable pub record_evaluation :
    Text → Text → ℕ → ℕ → Option ℕ → ℕ → PredictiveDedupCache → PredictiveDedupCache
unfolding make_space touch get_cache_key
record_evaluation user_address asset signal_strength block hf now c =
    let key = get_cache_key user_address asset in
    let spaced = make_space key c in
    record spaced {
      cache =
          JsMap.set key
            (record {
              user_address = user_address;
              asset = asset;
              last_evaluated_block = block;
              last_evaluated_timestamp = now;
              last_signal_strength = signal_strength;
              last_hf = hf;
            })
            spaced.cache;
      access_order = touch key spaced.access_order;
    }

-- `get` for the entry that was found.
unfoldable pub serve :
    Text
    → ℕ
    → Option CachedCandidate
    → PredictiveDedupCache
    → PredictiveDedupCache × Option CachedCandidate
unfolding expire
serve key now none c = (c, none)
serve key now (some cached) c =
    if is_expired now cached c then (expire key c, none) else (c, some cached)

unfoldable pub get :
    Text → Text → ℕ → PredictiveDedupCache → PredictiveDedupCache × Option CachedCandidate
unfolding serve get_cache_key
get user_address asset now c =
    let key = get_cache_key user_address asset in serve key now (JsMap.get key c.cache) c

-- The loop over the entries; deletions take only the entry that is visited.
unfoldable pub prune_loop :
    ℕ → JsMap Text CachedCandidate → PredictiveDedupCache → PredictiveDedupCache × ℕ
unfolding expire
prune_loop now [] c = (c, 0)
prune_loop now ((key, entry) ∷ entries) c =
    let (d, pruned_count) =
      prune_loop now entries (if is_expired now entry c then expire key c else c) in
    (d, (if is_expired now entry c then 1 else 0) + pruned_count)

unfoldable pub prune_expired : ℕ → PredictiveDedupCache → PredictiveDedupCache × ℕ
unfolding prune_loop
prune_expired now c = prune_loop now c.cache c

unfoldable pub clear : PredictiveDedupCache → PredictiveDedupCache
clear c = record c { cache = []; access_order = [] }
