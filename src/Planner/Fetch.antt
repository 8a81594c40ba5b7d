-- ===== src/Planner/Fetch.antt =====
-- The first phase of `selectTopPairs` and `selectBestPair`: all prices, decimals and configurations
-- that the scoring needs, each asked for once. A rejected request leaves its address out. The
-- requests of one phase are for distinct addresses, so they are made in the order of the set.
pub mod Cached
pub mod Honest
use liquid_bot.Prelude.{ℕ, Option, none, some, List, [], ◌∷◌, map, if◌then◌else◌, Bool, true, false}
use liquid_bot.Prelude.Text.{Text, to_lower_case, text_key}
use liquid_bot.JsMap.{JsMap, keys, get, has, set}
use liquid_bot.Planner.Types.{UserReserveData, ReserveConfig, Sources, Caches, Quotes}

-- `allAddresses.add(reserve.underlyingAsset.toLowerCase())` for each reserve
unfoldable pub add_addresses : List UserReserveData → JsMap Text (Unit {0}) → JsMap Text (Unit {0})
add_addresses [] seen = seen
add_addresses (r ∷ rs) seen = add_addresses rs (set (to_lower_case r.underlying_asset) tt seen)

unfoldable pub all_addresses : List UserReserveData → List UserReserveData → List Text
unfolding add_addresses
all_addresses debts collaterals = keys (add_addresses collaterals (add_addresses debts []))

-- A request's result goes into the map unless it failed.
abbrev pub keep_result {ℓ} : {V : Type ℓ} → Text → Option V → JsMap Text V → JsMap Text V
keep_result address none m = m
keep_result address (some v) m = set address v m

unfoldable pub fetch_prices : (Text → Option ℕ) → List Text → JsMap Text ℕ → JsMap Text ℕ
fetch_prices ask [] m = m
fetch_prices ask (a ∷ as_) m = fetch_prices ask as_ (keep_result a (ask a) m)

-- `getTokenDecimals` of prices/priceMath.ts: the cache, then the token's contract.
unfoldable pub get_token_decimals :
    (Text → Option ℕ) → JsMap Text ℕ → Text → JsMap Text ℕ × Option ℕ
get_token_decimals ask cache address = elim (get (to_lower_case address) cache) [
  | some d ↦ (cache, some d)
  | none ↦ (keep_result (to_lower_case address) (ask address) cache, ask address)
]

-- The loop over the addresses, with the cache of `getTokenDecimals` and the map of results.
unfoldable pub fetch_decimals :
    (Text → Option ℕ) → List Text → JsMap Text ℕ → JsMap Text ℕ → JsMap Text ℕ × JsMap Text ℕ
fetch_decimals ask [] cache m = (cache, m)
fetch_decimals ask (a ∷ as_) cache m =
    let r = get_token_decimals ask cache a in fetch_decimals ask as_ r.0 (keep_result a r.1 m)

-- A configuration that the planner has seen is not asked for again.
unfoldable pub get_config :
    (Text → Option ReserveConfig)
    → JsMap Text ReserveConfig
    → Text
    → JsMap Text ReserveConfig × Option ReserveConfig
get_config ask cache address =
    if has address cache
    then (cache, get address cache)
    else (keep_result address (ask address) cache, ask address)

unfoldable pub fetch_configs :
    (Text → Option ReserveConfig)
    → List Text
    → JsMap Text ReserveConfig
    → JsMap Text ReserveConfig
    → JsMap Text ReserveConfig × JsMap Text ReserveConfig
fetch_configs ask [] cache m = (cache, m)
fetch_configs ask (a ∷ as_) cache m =
    let r = get_config ask cache a in fetch_configs ask as_ r.0 (keep_result a r.1 m)

unfoldable pub prefetch :
    Sources → Caches → List UserReserveData → List UserReserveData → Caches × Quotes
unfolding all_addresses
prefetch src caches debts collaterals =
    let addresses = all_addresses debts collaterals in
    let prices = fetch_prices src.usd_price_for_address addresses [] in
    let decimals = fetch_decimals src.contract_decimals addresses caches.token_decimals_cache [] in
    let configs =
      fetch_configs src.reserve_configuration_data addresses caches.reserve_config_cache [] in
    (
      record { reserve_config_cache = configs.0; token_decimals_cache = decimals.0 },
      record { prices = prices; decimals = decimals.1; configs = configs.1 },
    )
