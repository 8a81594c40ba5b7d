-- ===== src/PriceMath/Fetch.antt =====
-- The reads of a price: the caches in their order, then the feeds. The times that one call reads are
-- one.
use liquid_bot.Prelude.{
  ℕ, ◌+◌, ◌-◌, ◌^◌, Bool, true, false, ◌||◌, Option, none, some, List, [], ◌∷◌, ◌++◌, ltb, ◌==◌,
  if◌then◌else◌,
}
use liquid_bot.Prelude.Int.{ℤ, ◌*ℤ◌, scale_ℤ}
use liquid_bot.Prelude.Text.{Text, codes, text_key, to_upper_case}
use liquid_bot.Prelude.Result.{Result, ok, err}
use liquid_bot.JsMap
use liquid_bot.JsMap.{JsMap, includes}
use liquid_bot.ChainlinkListener
use liquid_bot.ChainlinkListener.{ChainlinkListener, FeedContract, normalize}
use liquid_bot.PriceMath.{PriceMath, Action, eth, if_truthy, resolve_eth_usd_feed_address}

module _ {A : Type 0} where
  abbrev pub pure : A → Action A
  pure a s = (ok a, s)

  abbrev pub raise : Text → Action A
  raise message s = (err message, s)

  -- What the chain answers.
  abbrev pub lift : Result A → Action A
  lift r s = (r, s)

abbrev pub bind : {A B : Type 0} → Action A → (A → Action B) → Action B
bind m f s = let (r, t) = m s in elim r [ ok a ↦ f a t | err message ↦ (err message, t) ]

infixl 5 ◌>>=◌
abbrev pub ◌>>=◌ : {A B : Type 0} → Action A → (A → Action B) → Action B
m >>= f = bind m f

unfoldable pub get_chainlink_decimals : FeedContract → Text → Action ℕ
get_chainlink_decimals chain feed s = elim (JsMap.get feed s.chainlink_decimals_cache) [
  | some decimals ↦ (ok decimals, s)
  | none ↦ elim (chain.decimals feed) [
    | err message ↦ (err message, s)
    | ok decimals ↦ (
      ok decimals,
      record s { chainlink_decimals_cache = JsMap.set feed decimals s.chainlink_decimals_cache },
    )
  ]
]

-- `null` if the price is not cached, or older than the time to live.
unfoldable pub get_local_cached_price : Text → ℕ → ℕ → PriceMath → Option ℤ
get_local_cached_price symbol ttl_ms now s = elim (JsMap.get (to_upper_case symbol) s.price_cache) [
  | none ↦ none
  | some cached ↦ if ltb ttl_ms (now - cached.timestamp) then none else some cached.price
]

abbrev pub cache_miss_warn_cooldown_ms : ℕ
cache_miss_warn_cooldown_ms = 15000

-- `!lastWarn || now - lastWarn > COOLDOWN`
abbrev pub may_warn : ℕ → Option ℕ → Bool
may_warn now none = true
may_warn now (some last) = (last == 0) || ltb cache_miss_warn_cooldown_ms (now - last)

unfoldable pub warn_once_per_symbol : ℕ → Text → PriceMath → PriceMath
warn_once_per_symbol now symbol s =
    if may_warn now (JsMap.get symbol s.last_miss_warn_at)
    then record s { last_miss_warn_at = JsMap.set symbol now s.last_miss_warn_at }
    else s

abbrev pub count_rpc : PriceMath → PriceMath
count_rpc s = record s { rpc_fallbacks = s.rpc_fallbacks + 1 }

-- A miss of the listener's cache.
abbrev pub miss : ℕ → Text → PriceMath → PriceMath
miss now symbol s = count_rpc (warn_once_per_symbol now symbol s)

-- `latestRoundData` of a feed, then its decimals, and the answer in units of 1e-18.
unfoldable pub read_feed : FeedContract → Text → Action ℤ
unfolding get_chainlink_decimals normalize
read_feed chain feed = do
  answer ← lift (chain.latest_round_data feed)
  decimals ← get_chainlink_decimals chain feed
  pure (normalize answer decimals)

unfoldable pub fetch_chainlink_price : FeedContract → Text → Action ℤ
unfolding read_feed
fetch_chainlink_price chain symbol s =
    elim (if_truthy (JsMap.get symbol s.chainlink_feed_addresses)) [
      | none ↦ (err (codes "No Chainlink feed configured for " ++ symbol), s)
      | some feed ↦ read_feed chain feed s
    ]

abbrev pub ratio_symbols : List Text
ratio_symbols = codes "WSTETH" ∷ codes "WEETH" ∷ codes "CBETH" ∷ []

abbrev pub ratio_name : Text → Text
ratio_name symbol = symbol ++ codes "_ETH"

-- The listener's price for a feed, if there is a listener.
abbrev pub listener_price : Text → PriceMath → Option ℤ
listener_price feed s = elim s.chainlink_listener [
  | none ↦ none
  | some l ↦ ChainlinkListener.get_cached_price feed l
]

-- The ratio, cached or read.
unfoldable pub ratio_of : FeedContract → ℕ → Text → Text → Option ℤ → Action ℤ
unfolding read_feed warn_once_per_symbol
ratio_of chain now symbol feed (some price) s = (ok price, s)
ratio_of chain now symbol feed none s = read_feed chain feed (miss now (ratio_name symbol) s)

-- The price of ETH, cached or read.
unfoldable pub eth_price_of : FeedContract → ℕ → Option ℤ → Action ℤ
unfolding fetch_chainlink_price warn_once_per_symbol
eth_price_of chain now (some price) s = (ok price, s)
eth_price_of chain now none s = fetch_chainlink_price chain eth (miss now eth s)

-- The composition of what the listener has and what has to be read.
unfoldable pub compose : FeedContract → ℕ → Text → Text → Option ℤ → Option ℤ → Action ℤ
unfolding ratio_of eth_price_of
compose chain now symbol ratio_feed cached_ratio cached_eth = do
  ratio ← ratio_of chain now symbol ratio_feed cached_ratio
  eth_usd ← eth_price_of chain now cached_eth
  pure (scale_ℤ (ratio *ℤ eth_usd) 1 (10 ^ 18))

unfoldable pub compose_ratio : FeedContract → ℕ → Text → Text → Text → Action ℤ
unfolding compose
compose_ratio chain now symbol ratio_feed eth_feed s =
    compose chain now symbol ratio_feed (listener_price ratio_feed s) (listener_price eth_feed s) s

unfoldable pub fetch_ratio_feed_price : FeedContract → ℕ → Text → Action ℤ
unfolding compose_ratio resolve_eth_usd_feed_address
fetch_ratio_feed_price chain now symbol s =
    if includes symbol ratio_symbols
    then (elim (if_truthy (JsMap.get (ratio_name symbol) s.chainlink_feed_addresses)) [
      | none ↦ (err (codes "No " ++ symbol ++ codes "_ETH feed configured"), s)
      | some ratio_feed ↦ elim (resolve_eth_usd_feed_address s) [
        | none ↦ (err (codes "No ETH/WETH feed configured for ratio composition"), s)
        | some eth_feed ↦ compose_ratio chain now symbol ratio_feed eth_feed s
      ]
    ])
    else (err (symbol ++ codes " is not a ratio feed"), s)

-- A price that was fetched goes into the local cache.
abbrev pub cached_at : ℕ → Text → Result ℤ × PriceMath → Result ℤ × PriceMath
cached_at now symbol (err message, s) = (err message, s)
cached_at now symbol (ok price, s) = (
  ok price,
  record s {
    price_cache = JsMap.set symbol (record { price = price; timestamp = now }) s.price_cache;
  },
)

-- `getUsdPrice`, layer 3.
unfoldable pub from_rpc : FeedContract → ℕ → Text → Action ℤ
unfolding fetch_chainlink_price fetch_ratio_feed_price
from_rpc chain now symbol s =
    if JsMap.has symbol s.chainlink_feed_addresses
    then cached_at now symbol (fetch_chainlink_price chain symbol s)
    else if JsMap.has (ratio_name symbol) s.chainlink_feed_addresses
    then cached_at now symbol (fetch_ratio_feed_price chain now symbol s)
    else (
      err (
          codes "No Chainlink price feed configured for "
          ++ symbol
          ++ codes ". Pyth is disabled in this version."),
      s,
    )

abbrev pub has_listener : PriceMath → Bool
has_listener s = elim s.chainlink_listener [ none ↦ false | some l ↦ true ]

-- The way on after a miss: the composition if there is a ratio feed and a listener.
unfoldable pub after_miss : FeedContract → ℕ → Text → Action ℤ
unfolding from_rpc fetch_ratio_feed_price
after_miss chain now symbol s =
    elim (if_truthy (JsMap.get (ratio_name symbol) s.chainlink_feed_addresses)) [
      | none ↦ from_rpc chain now symbol s
      | some feed ↦
          if has_listener s
          then fetch_ratio_feed_price chain now symbol s
          else from_rpc chain now symbol s
    ]

-- The listener's answer for a feed, where there are both.
abbrev pub answer_of : Option Text → Option ChainlinkListener → Option (Option ℤ)
answer_of none l = none
answer_of (some feed) none = none
answer_of (some feed) (some l) = some (ChainlinkListener.get_cached_price feed l)

-- Layer 2.
unfoldable pub from_answer : FeedContract → ℕ → Text → Option (Option ℤ) → Action ℤ
unfolding after_miss warn_once_per_symbol
from_answer chain now symbol none s = after_miss chain now symbol s
from_answer chain now symbol (some none) s = after_miss chain now symbol (miss now symbol s)
from_answer chain now symbol (some (some price)) s =
    (ok price, record s { listener_hits = s.listener_hits + 1 })

unfoldable pub from_listener : FeedContract → ℕ → Text → Action ℤ
unfolding from_answer
from_listener chain now symbol s =
    from_answer chain now symbol
      (answer_of (if_truthy (JsMap.get symbol s.chainlink_feed_addresses)) s.chainlink_listener) s

-- `getUsdPrice`; the time to live is of the configuration.
unfoldable pub get_usd_price : ℕ → FeedContract → ℕ → Text → Action ℤ
unfolding from_listener get_local_cached_price
get_usd_price ttl_ms chain now symbol s =
    let normalized = to_upper_case symbol in
    elim (get_local_cached_price normalized ttl_ms now s) [
      | some price ↦ (ok price, record s { local_hits = s.local_hits + 1 })
      | none ↦ from_listener chain now normalized s
    ]
