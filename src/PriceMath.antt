-- ===== src/PriceMath.antt =====
-- backend-v2/src/prices/priceMath.ts: the state of the price layer, and what fills it. The variables
-- of the module are one record. The cache of the decimals of tokens stands in Planner/Fetch.antt,
-- with the planner, which is its reader. Log lines are left out.
pub mod Fetch
pub mod Addressed
pub mod Quotes
pub mod Refines
pub mod Layers
pub mod Again
pub mod Feeds
use liquid_bot.Prelude.{
  ℕ, zero, suc, ◌+◌, ◌-◌, Bool, true, false, not, ◌&&◌, ◌||◌, Option, none, some, List, [], ◌∷◌,
  ◌++◌, ltb, leb, ◌==◌, if◌then◌else◌,
}
use liquid_bot.Prelude.Int.{ℤ}
use liquid_bot.Prelude.Text.{Text, codes, text_key, to_lower_case, to_upper_case, truthy}
use liquid_bot.Prelude.Result.{Result, ok, err}
use liquid_bot.JsMap
use liquid_bot.JsMap.{JsMap}
use liquid_bot.ChainlinkListener.{ChainlinkListener}

pub record CachedPrice : Type 0 where
  pub price : ℤ
  pub timestamp : ℕ

pub record PriceMath : Type 0 where
  pub chainlink_decimals_cache : JsMap Text ℕ
  pub price_cache : JsMap Text CachedPrice
  pub chainlink_feed_addresses : JsMap Text Text
  pub address_to_feed_map : JsMap Text Text
  pub pyth_feed_ids : JsMap Text Text
  pub address_to_symbol_map : JsMap Text Text
  pub chainlink_listener : Option ChainlinkListener
  pub last_miss_warn_at : JsMap Text ℕ
  pub listener_hits : ℕ
  pub local_hits : ℕ
  pub rpc_fallbacks : ℕ

abbrev pub initial : PriceMath
initial = record {
  chainlink_decimals_cache = [];
  price_cache = [];
  chainlink_feed_addresses = [];
  address_to_feed_map = [];
  pyth_feed_ids = [];
  address_to_symbol_map = [];
  chainlink_listener = none;
  last_miss_warn_at = [];
  listener_hits = 0;
  local_hits = 0;
  rpc_fallbacks = 0;
}

-- A call on the state that may throw: what was written before stays written.
abbrev pub Action : Type 0 → Type 0
Action A = PriceMath → Result A × PriceMath

abbrev pub is_hex : ℕ → Bool
is_hex c = (leb b'0' c && leb c b'9') || (leb b'a' c && leb c b'f') || (leb b'A' c && leb c b'F')

-- `n` hexadecimal digits and no more.
unfoldable pub are_hex : ℕ → Text → Bool
are_hex zero [] = true
are_hex zero (c ∷ cs) = false
are_hex (suc n) [] = false
are_hex (suc n) (c ∷ cs) = is_hex c && are_hex n cs

-- `/^0x[a-fA-F0-9]{40}$/.test(address)`
unfoldable pub is_address : Text → Bool
unfolding are_hex
is_address (x ∷ y ∷ digits) = (x == b'0') && (y == b'x') && are_hex 40 digits
is_address address = false

abbrev pub set_feed : Text → Text → PriceMath → PriceMath
set_feed symbol address s = record s {
  chainlink_feed_addresses = JsMap.set symbol address s.chainlink_feed_addresses;
}

unfoldable pub invalid_feed : Text → Text → Text
invalid_feed symbol address =
    codes "Invalid Chainlink feed address for "
    ++ symbol
    ++ codes ": \""
    ++ address
    ++ codes "\". Expected 0x-prefixed 40-character hex address. "
    ++ codes "ENS names and other formats are not supported."

-- The loop of `initChainlinkFeeds`.
unfoldable pub set_feeds : List (Text × Text) → Action (Unit {0})
unfolding is_address
set_feeds [] s = (ok tt, s)
set_feeds ((symbol, address) ∷ feeds) s = elim (is_address address) [
  | false ↦ (err (invalid_feed symbol address), s)
  | true ↦ set_feeds feeds (set_feed (to_upper_case symbol) address s)
]

abbrev pub eth : Text
eth = codes "ETH"

abbrev pub weth : Text
weth = codes "WETH"

-- The alias: ETH has the feed of WETH, if it has none of its own.
unfoldable pub alias_eth : PriceMath → PriceMath
alias_eth s = elim (JsMap.get weth s.chainlink_feed_addresses) [
  | none ↦ s
  | some address ↦ if JsMap.has eth s.chainlink_feed_addresses then s else set_feed eth address s
]

unfoldable pub init_chainlink_feeds : List (Text × Text) → Action (Unit {0})
unfolding set_feeds alias_eth
init_chainlink_feeds feeds s =
    let (r, t) = set_feeds feeds s in
    elim r [ err message ↦ (err message, t) | ok done ↦ (ok tt, alias_eth t) ]

abbrev pub invalid_token : Text → Text
invalid_token token =
    codes "Invalid token address in address-to-feed mapping: \""
    ++ token
    ++ codes "\". Expected 0x-prefixed 40-character hex address."

abbrev pub invalid_feed_of_token : Text → Text → Text
invalid_feed_of_token token feed =
    codes "Invalid feed address for token "
    ++ token
    ++ codes ": \""
    ++ feed
    ++ codes "\". Expected 0x-prefixed 40-character hex address. "
    ++ codes "ENS names and other formats are not supported."

abbrev pub set_address_feed : Text → Text → PriceMath → PriceMath
set_address_feed token feed s = record s {
  address_to_feed_map = JsMap.set (to_lower_case token) (to_lower_case feed) s.address_to_feed_map;
}

unfoldable pub init_chainlink_feeds_by_address : List (Text × Text) → Action (Unit {0})
unfolding is_address
init_chainlink_feeds_by_address [] s = (ok tt, s)
init_chainlink_feeds_by_address ((token, feed) ∷ feeds) s = elim (is_address token) [
  | false ↦ (err (invalid_token token), s)
  | true ↦ elim (is_address feed) [
    | false ↦ (err (invalid_feed_of_token token feed), s)
    | true ↦ init_chainlink_feeds_by_address feeds (set_address_feed token feed s)
  ]
]

unfoldable pub init_pyth_feeds : List (Text × Text) → PriceMath → PriceMath
init_pyth_feeds [] s = s
init_pyth_feeds ((symbol, feed_id) ∷ feeds) s =
    init_pyth_feeds feeds
      (record s { pyth_feed_ids = JsMap.set (to_upper_case symbol) feed_id s.pyth_feed_ids })

unfoldable pub set_chainlink_listener : ChainlinkListener → PriceMath → PriceMath
set_chainlink_listener l s = record s { chainlink_listener = some l }

-- The mapping of the reserves, given as pairs of a symbol and a token's address.
unfoldable pub map_reserves : List (Text × Text) → JsMap Text Text → JsMap Text Text
map_reserves [] m = m
map_reserves ((symbol, token) ∷ reserves) m =
    map_reserves reserves (JsMap.set (to_lower_case token) (to_upper_case symbol) m)

unfoldable pub init_address_to_symbol_mapping : List (Text × Text) → PriceMath → PriceMath
unfolding map_reserves
init_address_to_symbol_mapping reserves s = record s {
  address_to_symbol_map = map_reserves reserves [];
}

unfoldable pub update_cached_price : ℕ → Text → ℤ → PriceMath → PriceMath
update_cached_price now symbol price s = record s {
  price_cache =
      JsMap.set (to_upper_case symbol) (record { price = price; timestamp = now }) s.price_cache;
}

unfoldable pub get_cached_price : Text → PriceMath → Option ℤ
get_cached_price symbol s = elim (JsMap.get (to_upper_case symbol) s.price_cache) [
  | none ↦ none
  | some cached ↦ some cached.price
]

unfoldable pub clear_price_cache : PriceMath → PriceMath
clear_price_cache s = record s { price_cache = [] }

-- `if (text)` for a value of a map.
abbrev pub if_truthy : Option Text → Option Text
if_truthy none = none
if_truthy (some t) = if truthy t then some t else none

-- `a || b`
abbrev pub or_else : Option Text → Option Text → Option Text
or_else none b = b
or_else (some a) b = some a

unfoldable pub resolve_eth_usd_feed_address : PriceMath → Option Text
resolve_eth_usd_feed_address s =
    or_else (if_truthy (JsMap.get eth s.chainlink_feed_addresses))
      (if_truthy (JsMap.get weth s.chainlink_feed_addresses))
