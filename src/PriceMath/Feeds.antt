-- ===== src/PriceMath/Feeds.antt =====
-- The feeds that are configured.
use liquid_bot.Prelude.{
  ◌≡◌, ◌≢◌, ◌⊎◌, refl, sym, ap, ◌∙◌, true, false, none, some, List, [], ◌∷◌, All, if◌then◌else◌,
  Bool-cases, Option-cases, inl, inr, beq_self,
}
use liquid_bot.Prelude.Text.{Text, text_key, to_upper_case, truthy}
use liquid_bot.Prelude.Result.{Result, ok, err, Result-cases}
use liquid_bot.JsMap
use liquid_bot.JsMap.{JsMap}
use liquid_bot.JsMap.Laws.{get-set, has-get}
use liquid_bot.JsMap.Entries.{All-set, All-get}
use liquid_bot.PriceMath.{
  PriceMath, is_address, set_feed, set_feeds, eth, weth, alias_eth, init_chainlink_feeds, if_truthy,
  or_else, resolve_eth_usd_feed_address,
}

true-ne-false : true ≢ false
true-ne-false h = cc

-- Every feed has a well-formed address.
abbrev pub FeedsAreValid : PriceMath → Type 0
FeedsAreValid s = All (λ e. is_address e.1 ≡ true) s.chainlink_feed_addresses

set_feed-FeedsAreValid :
    (symbol address : Text) (s : PriceMath)
    → is_address address ≡ true
    → FeedsAreValid s
    → FeedsAreValid (set_feed symbol address s)
set_feed-FeedsAreValid symbol address s fine v =
    All-set (λ (e : Text × Text). is_address e.1 ≡ true) symbol address s.chainlink_feed_addresses
      fine v

set_feeds-FeedsAreValid :
    (feeds : List (Text × Text)) (s : PriceMath)
    → FeedsAreValid s
    → FeedsAreValid (set_feeds feeds s).1
unfolding set_feeds
set_feeds-FeedsAreValid [] s v = v
set_feeds-FeedsAreValid ((symbol, address) ∷ feeds) s v = elim (Bool-cases (is_address address)) [
  | inr n ↦ rw (n, set_feeds) v
  | inl y ↦
      rw (y, set_feeds)
        (set_feeds-FeedsAreValid feeds (set_feed (to_upper_case symbol) address s)
          (set_feed-FeedsAreValid (to_upper_case symbol) address s y v))
]

is_address-truthy : (address : Text) → is_address address ≡ true → truthy address ≡ true
unfolding is_address
is_address-truthy [] h = cc
is_address-truthy (x ∷ xs) h = refl

alias_eth-FeedsAreValid : (s : PriceMath) → FeedsAreValid s → FeedsAreValid (alias_eth s)
unfolding alias_eth
alias_eth-FeedsAreValid s v = elim (Option-cases (JsMap.get weth s.chainlink_feed_addresses)) [
  | inl n ↦ rw (n, alias_eth) v
  | inr (address, e) ↦ elim (Bool-cases (JsMap.has eth s.chainlink_feed_addresses)) [
    | inl y ↦ rw (e, alias_eth) (rw (y, if◌then◌else◌) v)
    | inr n ↦
        rw (e, alias_eth)
          (rw (n, if◌then◌else◌)
            (set_feed-FeedsAreValid eth address s
              (All-get (λ (f : Text × Text). is_address f.1 ≡ true) weth s.chainlink_feed_addresses
                v e)
              v))
  ]
]

-- ETH has a feed if WETH has one, and it is the one that is resolved.
abbrev pub ResolvesEth : PriceMath → Type 0
ResolvesEth s =
    JsMap.get weth s.chainlink_feed_addresses ≢ none
    → (address : Text) × (JsMap.get eth s.chainlink_feed_addresses ≡ some address)
      × (resolve_eth_usd_feed_address s ≡ some address)

get-resolve :
    (s : PriceMath) (address : Text)
    → FeedsAreValid s
    → JsMap.get eth s.chainlink_feed_addresses ≡ some address
    → resolve_eth_usd_feed_address s ≡ some address
unfolding resolve_eth_usd_feed_address
get-resolve s address v e =
    let full : truthy address ≡ true =
      is_address-truthy address
        (All-get (λ (f : Text × Text). is_address f.1 ≡ true) eth s.chainlink_feed_addresses v e) in
    rw (e, if_truthy, full, if◌then◌else◌, or_else) refl

alias_eth-get :
    (s : PriceMath)
    → (JsMap.get weth (alias_eth s).chainlink_feed_addresses ≡ none)
      ⊎ (address : Text) × (JsMap.get eth (alias_eth s).chainlink_feed_addresses ≡ some address)
unfolding alias_eth
alias_eth-get s = elim (Option-cases (JsMap.get weth s.chainlink_feed_addresses)) [
  | inl n ↦ rw (n, alias_eth) (inl n)
  | inr (address, e) ↦ elim (Bool-cases (JsMap.has eth s.chainlink_feed_addresses)) [
    | inr n ↦
        rw (e, alias_eth)
          (rw (n, if◌then◌else◌)
            (inr (
              address,
              get-set eth eth address s.chainlink_feed_addresses
                  ∙ ap (λ b. if b then some address else JsMap.get eth s.chainlink_feed_addresses)
                      (beq_self eth),
            )))
    | inl y ↦ elim (Option-cases (JsMap.get eth s.chainlink_feed_addresses)) [
      | inl m ↦
          let absent = has-get eth s.chainlink_feed_addresses m in
          absurd (true-ne-false (sym y ∙ absent))
      | inr (own, f) ↦ rw (e, alias_eth) (rw (y, if◌then◌else◌) (inr (own, f)))
    ]
  ]
]

alias_eth-ResolvesEth : (s : PriceMath) → FeedsAreValid s → ResolvesEth (alias_eth s)
alias_eth-ResolvesEth s v listed = elim (alias_eth-get s) [
  | inl n ↦ absurd (listed n)
  | inr (address, e) ↦
      (address, e, get-resolve (alias_eth s) address (alias_eth-FeedsAreValid s v) e)
]

abbrev pub Configured : Result (Unit {0}) × PriceMath → Type 0
Configured (err message, s) = FeedsAreValid s
Configured (ok done, s) = FeedsAreValid s × ResolvesEth s

-- If every feed had a well-formed address before, every feed has one after `initChainlinkFeeds`,
-- also if it throws part of the way; and if it ends and WETH has a feed, then ETH has one, and that
-- is the feed that `resolveEthUsdFeedAddress` gives.
pub init_chainlink_feeds-Configured :
    (feeds : List (Text × Text)) (s : PriceMath)
    → FeedsAreValid s
    → Configured (init_chainlink_feeds feeds s)
unfolding init_chainlink_feeds
init_chainlink_feeds-Configured feeds s v =
    let fine = set_feeds-FeedsAreValid feeds s v in
    elim (Result-cases (set_feeds feeds s).0) [
      | inr (message, e) ↦ rw (e, init_chainlink_feeds) fine
      | inl (done, e) ↦
          rw (e, init_chainlink_feeds)
            (
              alias_eth-FeedsAreValid (set_feeds feeds s).1 fine,
              alias_eth-ResolvesEth (set_feeds feeds s).1 fine,
            )
    ]
