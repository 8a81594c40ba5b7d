-- ===== src/PriceMath/Refines.antt =====
-- `getUsdPrice` against the order of its sources.
use mathlib.Core.Path.{subst}
use liquid_bot.Prelude.{
  ℕ, ◌^◌, ◌≡◌, refl, ap, ◌∙◌, Bool, true, false, ◌&&◌, Option, none, some, List, [], ◌∷◌, ◌++◌,
  if◌then◌else◌, Bool-cases, Option-cases, inl, inr,
}
use liquid_bot.Prelude.Int.{ℤ, ◌*ℤ◌, scale_ℤ}
use liquid_bot.Prelude.Text.{Text, codes, text_key}
use liquid_bot.Prelude.Result.{Result, ok, err, ◌>>=◌}
use liquid_bot.JsMap
use liquid_bot.JsMap.{JsMap, includes}
use liquid_bot.ChainlinkListener.{FeedContract}
use liquid_bot.PriceMath.{PriceMath, eth, if_truthy, resolve_eth_usd_feed_address}
use liquid_bot.PriceMath.Fetch.{
  bind, pure, get_local_cached_price, may_warn, warn_once_per_symbol, miss, read_feed,
  fetch_chainlink_price, ratio_symbols, ratio_name, listener_price, ratio_of, eth_price_of, compose,
  has_listener, answer_of,
}
use liquid_bot.PriceMath.Quotes.{
  quote_feed, quote_symbol, or_read, Agrees, Gives, Gives-bind, read_feed-Gives,
}

abbrev pub known : Option (Option ℤ) → Option ℤ
known none = none
known (some price) = price

-- The listener's price for the feed of a symbol.
abbrev pub listened : PriceMath → Text → Option ℤ
listened s symbol =
    known (answer_of (if_truthy (JsMap.get symbol s.chainlink_feed_addresses)) s.chainlink_listener)

abbrev pub no_feed_for : Text → Text
no_feed_for symbol =
    codes "No Chainlink price feed configured for "
    ++ symbol
    ++ codes ". Pyth is disabled in this version."

-- The address of a feed, unless it is the empty string.
abbrev pub has_feed : Text → PriceMath → Bool
has_feed name s = elim (if_truthy (JsMap.get name s.chainlink_feed_addresses)) [
  | none ↦ false
  | some feed ↦ true
]

-- A source that applies has an answer.
abbrev pub answered : Option ℤ → Option (Result ℤ)
answered none = none
answered (some price) = some (ok price)

abbrev pub applies : Bool → Result ℤ → Option (Result ℤ)
applies b answer = if b then some answer else none

abbrev pub first_applied : List (Option (Result ℤ)) → Result ℤ → Result ℤ
first_applied [] default = default
first_applied (none ∷ sources) default = first_applied sources default
first_applied (some answer ∷ sources) default = answer

-- A source of a higher rank, if there is a feed and a listener.
ranked :
    (feed : Option Text) (listener : Bool) (higher lower : Result ℤ)
    (sources : List (Option (Result ℤ))) (default : Result ℤ)
    → lower ≡ first_applied sources default
    → (elim feed [ none ↦ lower | some f ↦ if listener then higher else lower ])
      ≡ first_applied
          (applies ((elim feed [ none ↦ false | some f ↦ true ]) && listener) higher ∷ sources)
          default
ranked none listener higher lower sources default e = e
ranked (some f) true higher lower sources default e = refl
ranked (some f) false higher lower sources default e = e

module _ (chain : FeedContract) where
  -- The ratio of a token to ETH times the price of ETH, each from the listener or else the chain.
  abbrev pub quote_composed : PriceMath → Option ℤ → Option ℤ → Text → Result ℤ
  quote_composed s cached_ratio cached_eth ratio_feed = do
    ratio ← or_read cached_ratio (quote_feed chain ratio_feed)
    eth_usd ← or_read cached_eth (quote_symbol chain s.chainlink_feed_addresses eth)
    ok (scale_ℤ (ratio *ℤ eth_usd) 1 (10 ^ 18))

  abbrev pub quote_ratio : PriceMath → Text → Result ℤ
  quote_ratio s symbol =
      if includes symbol ratio_symbols
      then (elim (if_truthy (JsMap.get (ratio_name symbol) s.chainlink_feed_addresses)) [
        | none ↦ err (codes "No " ++ symbol ++ codes "_ETH feed configured")
        | some ratio_feed ↦ elim (resolve_eth_usd_feed_address s) [
          | none ↦ err (codes "No ETH/WETH feed configured for ratio composition")
          | some eth_feed ↦
              quote_composed s (listener_price ratio_feed s) (listener_price eth_feed s) ratio_feed
        ]
      ])
      else err (symbol ++ codes " is not a ratio feed")

  abbrev pub quote_rpc : PriceMath → Text → Result ℤ
  quote_rpc s symbol =
      if JsMap.has symbol s.chainlink_feed_addresses
      then quote_symbol chain s.chainlink_feed_addresses symbol
      else if JsMap.has (ratio_name symbol) s.chainlink_feed_addresses
      then quote_ratio s symbol
      else err (no_feed_for symbol)

  -- After the caches: with a listener, a ratio feed goes before the direct one.
  abbrev pub quote_missed : PriceMath → Text → Result ℤ
  quote_missed s symbol =
      elim (if_truthy (JsMap.get (ratio_name symbol) s.chainlink_feed_addresses)) [
        | none ↦ quote_rpc s symbol
        | some feed ↦ if has_listener s then quote_ratio s symbol else quote_rpc s symbol
      ]

  -- The sources by rank: the local cache, the listener, the composition of a ratio if there are a
  -- ratio feed and a listener, the feed itself, the composition without a listener.
  abbrev pub ranked_sources : ℕ → ℕ → PriceMath → Text → List (Option (Result ℤ))
  ranked_sources ttl_ms now s symbol =
      answered (get_local_cached_price symbol ttl_ms now s)
      ∷ answered (listened s symbol)
      ∷ applies (has_feed (ratio_name symbol) s && has_listener s) (quote_ratio s symbol)
      ∷ applies (JsMap.has symbol s.chainlink_feed_addresses)
          (quote_symbol chain s.chainlink_feed_addresses symbol)
      ∷ applies (JsMap.has (ratio_name symbol) s.chainlink_feed_addresses) (quote_ratio s symbol)
      ∷ []

  -- The answer of the first source that applies. It may be an error: the ones behind are not asked.
  abbrev pub first_answer : ℕ → ℕ → PriceMath → Text → Result ℤ
  first_answer ttl_ms now s symbol =
      first_applied (ranked_sources ttl_ms now s symbol) (err (no_feed_for symbol))

  quote_rpc-first :
      (s : PriceMath) (symbol : Text)
      → quote_rpc s symbol
        ≡ first_applied
            (applies
                (JsMap.has symbol s.chainlink_feed_addresses)
                (quote_symbol chain s.chainlink_feed_addresses symbol)
              ∷ applies
                  (JsMap.has (ratio_name symbol) s.chainlink_feed_addresses)
                  (quote_ratio s symbol)
              ∷ [])
            (err (no_feed_for symbol))
  quote_rpc-first s symbol = elim (Bool-cases (JsMap.has symbol s.chainlink_feed_addresses)) [
    | inl y ↦ rw y refl
    | inr n ↦ elim (Bool-cases (JsMap.has (ratio_name symbol) s.chainlink_feed_addresses)) [
      | inl y ↦ rw (n, y) refl
      | inr m ↦ rw (n, m) refl
    ]
  ]

  quote_missed-first :
      (s : PriceMath) (symbol : Text)
      → quote_missed s symbol
        ≡ first_applied
            (applies (has_feed (ratio_name symbol) s && has_listener s) (quote_ratio s symbol)
              ∷ applies
                  (JsMap.has symbol s.chainlink_feed_addresses)
                  (quote_symbol chain s.chainlink_feed_addresses symbol)
              ∷ applies
                  (JsMap.has (ratio_name symbol) s.chainlink_feed_addresses)
                  (quote_ratio s symbol)
              ∷ [])
            (err (no_feed_for symbol))
  quote_missed-first s symbol =
      ranked (if_truthy (JsMap.get (ratio_name symbol) s.chainlink_feed_addresses)) (has_listener s)
        (quote_ratio s symbol) (quote_rpc s symbol) _ (err (no_feed_for symbol))
        (quote_rpc-first s symbol)

  -- What is asked after the caches.
  pub first_answer-missed :
      (ttl_ms now : ℕ) (s : PriceMath) (symbol : Text)
      → or_read
          (get_local_cached_price symbol ttl_ms now s)
          (or_read (listened s symbol) (quote_missed s symbol))
        ≡ first_answer ttl_ms now s symbol
  first_answer-missed ttl_ms now s symbol =
      elim (Option-cases (get_local_cached_price symbol ttl_ms now s)) [
        | inr (price, e) ↦ rw e refl
        | inl cold ↦ elim (Option-cases (listened s symbol)) [
          | inr (price, e) ↦ rw (cold, e) refl
          | inl unheard ↦ rw (cold, unheard) (quote_missed-first s symbol)
        ]
      ]

  pub Agrees-miss :
      (now : ℕ) (k : Text) (s : PriceMath) → Agrees chain s → Agrees chain (miss now k s)
  unfolding warn_once_per_symbol
  Agrees-miss now k s agrees = elim (Bool-cases (may_warn now (JsMap.get k s.last_miss_warn_at))) [
    | inl y ↦ rw (y, if◌then◌else◌) agrees
    | inr n ↦ rw (n, if◌then◌else◌) agrees
  ]

  miss-feeds :
      (now : ℕ) (k : Text) (s : PriceMath)
      → ((miss now k s).chainlink_feed_addresses ≡ s.chainlink_feed_addresses)
        × ((miss now k s).chainlink_listener ≡ s.chainlink_listener)
  unfolding warn_once_per_symbol
  miss-feeds now k s = elim (Bool-cases (may_warn now (JsMap.get k s.last_miss_warn_at))) [
    | inl y ↦ rw (y, if◌then◌else◌) (refl, refl)
    | inr n ↦ rw (n, if◌then◌else◌) (refl, refl)
  ]

  pub Gives-miss :
      (now : ℕ) (k : Text) (s : PriceMath) (r : Result ℤ) (out : Result ℤ × PriceMath)
      → Gives chain (miss now k s) r out
      → Gives chain s r out
  Gives-miss now k s r out g = let h = miss-feeds now k s in (g.0, g.1, g.2 ∙ h.0, g.3 ∙ h.1)

  ratio_of-Gives :
      (now : ℕ) (symbol feed : Text) (cached : Option ℤ) (s : PriceMath)
      → Agrees chain s
      → Gives chain s
          (or_read cached (quote_feed chain feed))
          (ratio_of chain now symbol feed cached s)
  unfolding ratio_of
  ratio_of-Gives now symbol feed (some price) s agrees = (refl, agrees, refl, refl)
  ratio_of-Gives now symbol feed none s agrees =
      Gives-miss now (ratio_name symbol) s (quote_feed chain feed)
        (read_feed chain feed (miss now (ratio_name symbol) s))
        (read_feed-Gives chain feed (miss now (ratio_name symbol) s)
          (Agrees-miss now (ratio_name symbol) s agrees))

  pub fetch_chainlink_price-Gives :
      (symbol : Text) (s : PriceMath)
      → Agrees chain s
      → Gives chain s
          (quote_symbol chain s.chainlink_feed_addresses symbol)
          (fetch_chainlink_price chain symbol s)
  unfolding fetch_chainlink_price
  fetch_chainlink_price-Gives symbol s agrees =
      elim (Option-cases (if_truthy (JsMap.get symbol s.chainlink_feed_addresses))) [
        | inl n ↦ rw (n, fetch_chainlink_price, quote_symbol) (refl, agrees, refl, refl)
        | inr (feed, y) ↦
            rw (y, fetch_chainlink_price, quote_symbol) (read_feed-Gives chain feed s agrees)
      ]

  eth_price_of-Gives :
      (now : ℕ) (cached : Option ℤ) (s : PriceMath)
      → Agrees chain s
      → Gives chain s
          (or_read cached (quote_symbol chain s.chainlink_feed_addresses eth))
          (eth_price_of chain now cached s)
  unfolding eth_price_of
  eth_price_of-Gives now (some price) s agrees = (refl, agrees, refl, refl)
  eth_price_of-Gives now none s agrees =
      let t = miss now eth s in
      let g = fetch_chainlink_price-Gives eth t (Agrees-miss now eth s agrees) in
      let same = miss-feeds now eth s in
      Gives-miss now eth s (quote_symbol chain s.chainlink_feed_addresses eth)
        (fetch_chainlink_price chain eth t)
        (g.0 ∙ ap (λ feeds. quote_symbol chain feeds eth) same.0, g.1, g.2, g.3)

  pub compose-Gives :
      (now : ℕ) (symbol feed : Text) (cached_ratio cached_eth : Option ℤ) (s : PriceMath)
      → Agrees chain s
      → Gives chain s
          (quote_composed s cached_ratio cached_eth feed)
          (compose chain now symbol feed cached_ratio cached_eth s)
  unfolding compose
  compose-Gives now symbol feed cached_ratio cached_eth s agrees =
      Gives-bind chain (ratio_of chain now symbol feed cached_ratio)
        (λ ratio.
          bind (eth_price_of chain now cached_eth)
            (λ eth_usd. pure (scale_ℤ (ratio *ℤ eth_usd) 1 (10 ^ 18))))
        s (or_read cached_ratio (quote_feed chain feed))
        (λ ratio.
          or_read cached_eth (quote_symbol chain s.chainlink_feed_addresses eth) >>= λ eth_usd.
          ok (scale_ℤ (ratio *ℤ eth_usd) 1 (10 ^ 18)))
        (ratio_of-Gives now symbol feed cached_ratio s agrees)
        (λ ratio t agrees_t feeds listener.
          Gives-bind chain (eth_price_of chain now cached_eth)
            (λ eth_usd. pure (scale_ℤ (ratio *ℤ eth_usd) 1 (10 ^ 18))) t
            (or_read cached_eth (quote_symbol chain s.chainlink_feed_addresses eth))
            (λ eth_usd. ok (scale_ℤ (ratio *ℤ eth_usd) 1 (10 ^ 18)))
            (subst
              (λ m.
                Gives chain t (or_read cached_eth (quote_symbol chain m eth))
                  (eth_price_of chain now cached_eth t))
              feeds (eth_price_of-Gives now cached_eth t agrees_t))
            (λ eth_usd u agrees_u feeds_u listener_u. (refl, agrees_u, refl, refl)))
