-- ===== src/PriceMath/Layers.antt =====
-- The layers of `getUsdPrice`, one by one.
use liquid_bot.Prelude.{
  ℕ, ◌≡◌, refl, ◌∙◌, Option, none, some, if◌then◌else◌, Bool-cases, Option-cases, inl, inr,
}
use liquid_bot.Prelude.Int.{ℤ}
use liquid_bot.Prelude.Text.{Text, text_key, to_upper_case}
use liquid_bot.Prelude.Result.{Result, ok, err}
use liquid_bot.JsMap
use liquid_bot.JsMap.{JsMap, includes}
use liquid_bot.ChainlinkListener.{FeedContract}
use liquid_bot.PriceMath.{PriceMath, if_truthy, resolve_eth_usd_feed_address}
use liquid_bot.PriceMath.Fetch.{
  get_local_cached_price, may_warn, warn_once_per_symbol, miss, fetch_chainlink_price,
  ratio_symbols, ratio_name, listener_price, compose_ratio, fetch_ratio_feed_price, cached_at,
  from_rpc, has_listener, after_miss, from_listener, get_usd_price, answer_of, from_answer,
}
use liquid_bot.PriceMath.Quotes.{quote_symbol, or_read, Agrees, Gives}
use liquid_bot.PriceMath.Refines.{
  quote_ratio, quote_rpc, quote_missed, known, listened, first_answer, first_answer-missed,
  Agrees-miss, Gives-miss, fetch_chainlink_price-Gives, compose-Gives,
}

module _ (chain : FeedContract) where
  fetch_ratio_feed_price-Gives :
      (now : ℕ) (symbol : Text) (s : PriceMath)
      → Agrees chain s
      → Gives chain s (quote_ratio chain s symbol) (fetch_ratio_feed_price chain now symbol s)
  unfolding fetch_ratio_feed_price compose_ratio
  fetch_ratio_feed_price-Gives now symbol s agrees =
      elim (Bool-cases (includes symbol ratio_symbols)) [
        | inr n ↦ rw (n, if◌then◌else◌) (refl, agrees, refl, refl)
        | inl y ↦
            rw (y, if◌then◌else◌)
              (elim (Option-cases
                (if_truthy (JsMap.get (ratio_name symbol) s.chainlink_feed_addresses))) [
                  | inl n ↦ rw n (refl, agrees, refl, refl)
                  | inr (rf, e) ↦ rw e (elim (Option-cases (resolve_eth_usd_feed_address s)) [
                    | inl n ↦ rw n (refl, agrees, refl, refl)
                    | inr (ef, f) ↦ rw f (
                        compose-Gives chain now symbol rf (listener_price rf s)
                          (listener_price ef s) s agrees)
                  ])
                ])
      ]

  cached_at-Gives :
      (now : ℕ) (symbol : Text) (s : PriceMath) (r : Result ℤ) (out : Result ℤ × PriceMath)
      → Gives chain s r out
      → Gives chain s r (cached_at now symbol out)
  cached_at-Gives now symbol s r (err message, t) g = g
  cached_at-Gives now symbol s r (ok price, t) g = g

  from_rpc-Gives :
      (now : ℕ) (symbol : Text) (s : PriceMath)
      → Agrees chain s
      → Gives chain s (quote_rpc chain s symbol) (from_rpc chain now symbol s)
  unfolding from_rpc
  from_rpc-Gives now symbol s agrees =
      elim (Bool-cases (JsMap.has symbol s.chainlink_feed_addresses)) [
        | inl y ↦
            rw (y, if◌then◌else◌)
              (cached_at-Gives now symbol s (quote_symbol chain s.chainlink_feed_addresses symbol)
                (fetch_chainlink_price chain symbol s)
                (fetch_chainlink_price-Gives chain symbol s agrees))
        | inr n ↦
            rw (n, if◌then◌else◌)
              (elim (Bool-cases (JsMap.has (ratio_name symbol) s.chainlink_feed_addresses)) [
                | inr m ↦ rw (m, if◌then◌else◌) (refl, agrees, refl, refl)
                | inl y ↦
                    rw (y, if◌then◌else◌)
                      (cached_at-Gives now symbol s (quote_ratio chain s symbol)
                        (fetch_ratio_feed_price chain now symbol s)
                        (fetch_ratio_feed_price-Gives now symbol s agrees))
              ])
      ]

  after_miss-Gives :
      (now : ℕ) (symbol : Text) (s : PriceMath)
      → Agrees chain s
      → Gives chain s (quote_missed chain s symbol) (after_miss chain now symbol s)
  unfolding after_miss
  after_miss-Gives now symbol s agrees =
      elim (Option-cases (if_truthy (JsMap.get (ratio_name symbol) s.chainlink_feed_addresses))) [
        | inl n ↦ rw (n, after_miss, quote_missed) (from_rpc-Gives now symbol s agrees)
        | inr (feed, e) ↦
            rw (e, after_miss, quote_missed)
              (elim (Bool-cases (has_listener s)) [
                | inl y ↦ rw (y, if◌then◌else◌) (fetch_ratio_feed_price-Gives now symbol s agrees)
                | inr n ↦ rw (n, if◌then◌else◌) (from_rpc-Gives now symbol s agrees)
              ])
      ]

  quote_missed-miss :
      (now : ℕ) (k symbol : Text) (s : PriceMath)
      → quote_missed chain (miss now k s) symbol ≡ quote_missed chain s symbol
  unfolding warn_once_per_symbol resolve_eth_usd_feed_address
  quote_missed-miss now k symbol s =
      elim (Bool-cases (may_warn now (JsMap.get k s.last_miss_warn_at))) [
        | inl y ↦ rw (y, if◌then◌else◌) refl
        | inr n ↦ rw (n, if◌then◌else◌) refl
      ]

  from_answer-Gives :
      (now : ℕ) (symbol : Text) (answer : Option (Option ℤ)) (s : PriceMath)
      → Agrees chain s
      → Gives chain s
          (or_read (known answer) (quote_missed chain s symbol))
          (from_answer chain now symbol answer s)
  unfolding from_answer
  from_answer-Gives now symbol none s agrees = after_miss-Gives now symbol s agrees
  from_answer-Gives now symbol (some (some price)) s agrees = (refl, agrees, refl, refl)
  from_answer-Gives now symbol (some none) s agrees =
      let t = miss now symbol s in
      let g = after_miss-Gives now symbol t (Agrees-miss chain now symbol s agrees) in
      Gives-miss chain now symbol s (quote_missed chain s symbol) (after_miss chain now symbol t)
        (g.0 ∙ quote_missed-miss now symbol symbol s, g.1, g.2, g.3)

-- The caches, and what is asked after them.
get_usd_price-missed :
    (ttl_ms : ℕ) (chain : FeedContract) (now : ℕ) (symbol : Text) (s : PriceMath)
    → Agrees chain s
    → Gives chain s
        (or_read (get_local_cached_price (to_upper_case symbol) ttl_ms now s) (
          or_read
            (listened s (to_upper_case symbol))
            (quote_missed chain s (to_upper_case symbol))))
        (get_usd_price ttl_ms chain now symbol s)
unfolding get_usd_price from_listener
get_usd_price-missed ttl_ms chain now symbol s agrees =
    let name = to_upper_case symbol in
    let feed = if_truthy (JsMap.get name s.chainlink_feed_addresses) in
    elim (Option-cases (get_local_cached_price name ttl_ms now s)) [
      | inr (price, e) ↦ rw (e, get_usd_price, or_read) (refl, agrees, refl, refl)
      | inl n ↦
          rw (n, get_usd_price, or_read)
            (from_answer-Gives chain now name (answer_of feed s.chainlink_listener) s agrees)
    ]

-- If the decimals that are cached are the chain's, `getUsdPrice` answers as the first source that
-- applies, in the order: the local cache, if it has a fresh price; the listener, if it has a price for
-- the feed; the composition of a ratio, if there are a ratio feed and a listener; the feed itself, if
-- it is configured; the composition without a listener. The answer may be the error of this source,
-- and the sources behind it are not asked then. The decimals cached are again the chain's, and the
-- feeds and the listener are as before.
pub get_usd_price-Gives :
    (ttl_ms : ℕ) (chain : FeedContract) (now : ℕ) (symbol : Text) (s : PriceMath)
    → Agrees chain s
    → Gives chain s
        (first_answer chain ttl_ms now s (to_upper_case symbol))
        (get_usd_price ttl_ms chain now symbol s)
get_usd_price-Gives ttl_ms chain now symbol s agrees =
    let g = get_usd_price-missed ttl_ms chain now symbol s agrees in
    (g.0 ∙ first_answer-missed chain ttl_ms now s (to_upper_case symbol), g.1, g.2, g.3)
