-- ===== src/PriceMath/Addressed.antt =====
-- The price of a token by its address, and of one feed that is read past the price caches.
use liquid_bot.Prelude.{ℕ, ◌+◌, Option, none, some, ◌++◌, take, if◌then◌else◌}
use liquid_bot.Prelude.Int.{ℤ, pos, ltb_ℤ, to_string}
use liquid_bot.Prelude.Text.{Text, codes, text_key, to_lower_case}
use liquid_bot.Prelude.Result.{ok, err}
use liquid_bot.JsMap
use liquid_bot.JsMap.{JsMap, includes}
use liquid_bot.ChainlinkListener.{FeedContract, normalize}
use liquid_bot.PriceMath.{PriceMath, Action, if_truthy}
use liquid_bot.PriceMath.Fetch.{
  ◌>>=◌, pure, raise, lift, get_chainlink_decimals, read_feed, warn_once_per_symbol,
  get_local_cached_price, miss, answer_of, get_usd_price,
}

-- The feed of an address, past the local cache.
unfoldable pub feed_price : FeedContract → ℕ → Text → Option (Option ℤ) → Action ℤ
unfolding read_feed warn_once_per_symbol
feed_price chain now feed none s = read_feed chain feed s
feed_price chain now feed (some (some price)) s =
    (ok price, record s { listener_hits = s.listener_hits + 1 })
feed_price chain now feed (some none) s =
    read_feed chain feed (miss now (codes "feed:" ++ take 10 feed) s)

-- The local cache by the symbol of an address, if it has one.
abbrev pub local_by_symbol : ℕ → ℕ → Option Text → PriceMath → Option ℤ
local_by_symbol ttl_ms now none s = none
local_by_symbol ttl_ms now (some symbol) s = get_local_cached_price symbol ttl_ms now s

unfoldable pub get_usd_price_for_address : ℕ → FeedContract → ℕ → Text → Action ℤ
unfolding get_usd_price feed_price get_local_cached_price
get_usd_price_for_address ttl_ms chain now address s =
    let normalized = to_lower_case address in
    let symbol = if_truthy (JsMap.get normalized s.address_to_symbol_map) in
    elim (if_truthy (JsMap.get normalized s.address_to_feed_map)) [
      | some feed ↦ elim (local_by_symbol ttl_ms now symbol s) [
        | some price ↦ (ok price, record s { local_hits = s.local_hits + 1 })
        | none ↦ feed_price chain now feed (answer_of (some feed) s.chainlink_listener) s
      ]
      | none ↦ elim symbol [
        | none ↦ (
          err (
              codes "No symbol mapping found for address "
              ++ address
              ++ codes ". Call initAddressToSymbolMapping() at startup."),
          s,
        )
        | some name ↦ get_usd_price ttl_ms chain now name s
      ]
    ]

abbrev pub invalid_price : Text → ℤ → Text
invalid_price feed answer =
    codes "Invalid Chainlink price from feed "
    ++ feed
    ++ codes ": "
    ++ to_string answer
    ++ codes ". Price must be positive."

-- `getNormalizedPriceFromFeed`, which reads and writes no price cache.
unfoldable pub get_normalized_price_from_feed : FeedContract → Text → Action ℤ
unfolding get_chainlink_decimals normalize to_string
get_normalized_price_from_feed chain feed = do
  answer ← lift (chain.latest_round_data feed)
  positive ← if ltb_ℤ answer (pos 1) then raise (invalid_price feed answer) else pure answer
  decimals ← get_chainlink_decimals chain feed
  pure (normalize positive decimals)
