-- ===== src/PriceMath/Again.antt =====
-- A second call, and the two ways to ask for a price.
use liquid_bot.Prelude.{
  ℕ, ◌+◌, ◌-◌, ◌≤◌, ◌≡◌, ◌⊎◌, refl, sym, ap, ◌∙◌, true, false, Option, none, some, arith, ltb,
  if◌then◌else◌, Bool-cases, Option-cases, inl, inr, beq_self,
}
use liquid_bot.Prelude.Int.{ℤ}
use liquid_bot.Prelude.Text.{
  Text, text_key, to_lower_case, to_upper_case, to_upper_case-to_upper_case,
}
use liquid_bot.Prelude.Result.{Result, ok, err}
use liquid_bot.JsMap
use liquid_bot.JsMap.{JsMap}
use liquid_bot.JsMap.Laws.{get-set}
use liquid_bot.ChainlinkListener
use liquid_bot.ChainlinkListener.{ChainlinkListener, FeedContract}
use liquid_bot.PriceMath.{CachedPrice, PriceMath, if_truthy}
use liquid_bot.PriceMath.Addressed.{feed_price, get_usd_price_for_address}
use liquid_bot.PriceMath.Fetch.{
  get_local_cached_price, fetch_chainlink_price, ratio_name, fetch_ratio_feed_price, cached_at,
  from_rpc, has_listener, after_miss, answer_of, from_answer, from_listener, get_usd_price,
}

-- A price that is given stands in the local cache.
abbrev Remembers : ℕ → Text → Result ℤ × PriceMath → Type 0
Remembers now name (err message, t) = Unit {0}
Remembers now name (ok price, t) =
    JsMap.get name t.price_cache ≡ some (record { price = price; timestamp = now })

cached_at-Remembers :
    (now : ℕ) (name : Text) (out : Result ℤ × PriceMath)
    → Remembers now name (cached_at now name out)
cached_at-Remembers now name (err message, t) = tt
cached_at-Remembers now name (ok price, t) =
    let entry : CachedPrice = record { price = price; timestamp = now } in
    get-set name name entry t.price_cache
    ∙ ap (λ b. if b then some entry else JsMap.get name t.price_cache) (beq_self name)

module _ (chain : FeedContract) (now : ℕ) (name : Text) (s : PriceMath) where
  from_rpc-Remembers : Remembers now name (from_rpc chain now name s)
  unfolding from_rpc
  from_rpc-Remembers = elim (Bool-cases (JsMap.has name s.chainlink_feed_addresses)) [
    | inl y ↦
        rw (y, if◌then◌else◌) (cached_at-Remembers now name (fetch_chainlink_price chain name s))
    | inr n ↦
        rw (n, if◌then◌else◌)
          (elim (Bool-cases (JsMap.has (ratio_name name) s.chainlink_feed_addresses)) [
            | inl y ↦
                rw (y, if◌then◌else◌)
                  (cached_at-Remembers now name (fetch_ratio_feed_price chain now name s))
            | inr m ↦ rw (m, if◌then◌else◌) tt
          ])
  ]

  after_miss-Remembers : has_listener s ≡ false → Remembers now name (after_miss chain now name s)
  unfolding after_miss
  after_miss-Remembers alone =
      elim (Option-cases (if_truthy (JsMap.get (ratio_name name) s.chainlink_feed_addresses))) [
        | inl n ↦ rw (n, after_miss) from_rpc-Remembers
        | inr (feed, e) ↦ rw (e, after_miss) (rw (alone, if◌then◌else◌) from_rpc-Remembers)
      ]

no_answer : (feed : Option Text) → answer_of feed none ≡ none
no_answer none = refl
no_answer (some feed) = refl

get_usd_price-Remembers :
    (ttl_ms : ℕ) (chain : FeedContract) (now : ℕ) (symbol : Text) (s : PriceMath)
    → s.chainlink_listener ≡ none
    → get_local_cached_price (to_upper_case symbol) ttl_ms now s ≡ none
    → Remembers now (to_upper_case symbol) (get_usd_price ttl_ms chain now symbol s)
unfolding get_usd_price from_listener from_answer
get_usd_price-Remembers ttl_ms chain now symbol s alone miss =
    let name = to_upper_case symbol in
    let feed = if_truthy (JsMap.get name s.chainlink_feed_addresses) in
    let silent : answer_of feed s.chainlink_listener ≡ none =
      ap (answer_of feed) alone ∙ no_answer feed in
    rw (miss, get_usd_price, silent)
      (after_miss-Remembers chain now name s
        (ap (λ o. elim o [ none ↦ false | some l ↦ true ]) alone))

get_local_cached_price-kept :
    (ttl_ms now later : ℕ) (symbol : Text) (t : PriceMath) (price : ℤ)
    → JsMap.get (to_upper_case symbol) t.price_cache
      ≡ some (record { price = price; timestamp = now })
    → later ≤ now + ttl_ms
    → get_local_cached_price (to_upper_case symbol) ttl_ms later t ≡ some price
unfolding get_local_cached_price
get_local_cached_price-kept ttl_ms now later symbol t price kept fresh =
    let young : ltb ttl_ms (later - now) ≡ false = ground arith in
    rw (to_upper_case-to_upper_case symbol, kept, get_local_cached_price)
      (rw (young, if◌then◌else◌) refl)

-- With no listener, a price that was not in the local cache and was fetched is given again by every
-- call for the symbol within the time to live, whatever the chain then answers; that call changes
-- the count of hits of the local cache alone.
pub get_usd_price-again :
    (ttl_ms : ℕ) (chain next_chain : FeedContract) (now later : ℕ) (symbol : Text) (s t : PriceMath)
    (price : ℤ)
    → s.chainlink_listener ≡ none
    → get_local_cached_price (to_upper_case symbol) ttl_ms now s ≡ none
    → get_usd_price ttl_ms chain now symbol s ≡ (ok price, t)
    → later ≤ now + ttl_ms
    → get_usd_price ttl_ms next_chain later symbol t
      ≡ (ok price, record t { local_hits = t.local_hits + 1 })
unfolding get_usd_price
get_usd_price-again ttl_ms chain next_chain now later symbol s t price alone miss first fresh =
    let kept : Remembers now (to_upper_case symbol) (ok price, t) =
      rw first at (get_usd_price-Remembers ttl_ms chain now symbol s alone miss) in
    rw (get_local_cached_price-kept ttl_ms now later symbol t price kept fresh, get_usd_price) refl

-- The listener's answers do not tell the case of a feed's address.
answer_of-lower :
    (feed other : Text) (l : Option ChainlinkListener)
    → to_lower_case feed ≡ to_lower_case other
    → answer_of (some feed) l ≡ answer_of (some other) l
unfolding ChainlinkListener.get_cached_price
answer_of-lower feed other none e = refl
answer_of-lower feed other (some l) e = rw e refl

-- For a token with a feed and a symbol in upper case that has the same feed up to the case of its
-- letters: if the local cache or else the listener has a price, asking by the address is the same as
-- asking by the symbol, in the price and in all that changes, whatever the chain answers.
pub get_usd_price_for_address-eq :
    (ttl_ms : ℕ) (chain other_chain : FeedContract) (now : ℕ) (address name feed other : Text)
    (s : PriceMath) (price : ℤ)
    → if_truthy (JsMap.get (to_lower_case address) s.address_to_feed_map) ≡ some feed
    → if_truthy (JsMap.get (to_lower_case address) s.address_to_symbol_map) ≡ some name
    → to_upper_case name ≡ name
    → if_truthy (JsMap.get name s.chainlink_feed_addresses) ≡ some other
    → to_lower_case feed ≡ to_lower_case other
    → (get_local_cached_price name ttl_ms now s ≡ some price)
      ⊎ (get_local_cached_price name ttl_ms now s ≡ none)
        × (answer_of (some other) s.chainlink_listener ≡ some (some price))
    → get_usd_price_for_address ttl_ms chain now address s
      ≡ get_usd_price ttl_ms other_chain now name s
unfolding get_usd_price_for_address get_usd_price from_listener from_answer feed_price
get_usd_price_for_address-eq ttl_ms chain other_chain now address name feed other s price by_feed
      by_symbol upper listed same known_price =
    elim known_price [
      | inl local ↦
          let hit : Result ℤ × PriceMath = (ok price, record s { local_hits = s.local_hits + 1 }) in
          let a : get_usd_price_for_address ttl_ms chain now address s ≡ hit =
            rw (by_feed, by_symbol, local, get_usd_price_for_address) refl in
          let b : get_usd_price ttl_ms other_chain now name s ≡ hit =
            rw (upper, local, get_usd_price) refl in
          a ∙ sym b
      | inr (cold, heard) ↦
          let heard_too : answer_of (some feed) s.chainlink_listener ≡ some (some price) =
            answer_of-lower feed other s.chainlink_listener same ∙ heard in
          let hit : Result ℤ × PriceMath =
            (ok price, record s { listener_hits = s.listener_hits + 1 }) in
          let a : get_usd_price_for_address ttl_ms chain now address s ≡ hit =
            rw (by_feed, by_symbol, cold, heard_too, get_usd_price_for_address) refl in
          let b : get_usd_price ttl_ms other_chain now name s ≡ hit =
            rw (upper, cold, get_usd_price) (rw (upper, listed, heard, from_listener) refl) in
          a ∙ sym b
    ]
