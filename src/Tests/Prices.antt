-- ===== src/Tests/Prices.antt =====
-- The price layer and the listener on small inputs.
use liquid_bot.Prelude.{◌+◌, ◌-◌, ◌*◌, ◌^◌, ◌≡◌, refl, some, List, [], ◌∷◌, arith}
use liquid_bot.Prelude.Int.{ℤ, pos, negsuc, scale_ℤ}
use liquid_bot.Prelude.Text.{Text, codes, text_key, text_eq, to_lower_case, to_upper_case}
use liquid_bot.Prelude.Result.{ok, err}
use liquid_bot.JsMap
use liquid_bot.ChainlinkListener
use liquid_bot.ChainlinkListener.{
  ChainlinkListener, FeedContract, new_listener, add_feed, on_price_update, handle_log,
}
use liquid_bot.ChainlinkListener.Rounds.{Log, run, handle_log-once}
use liquid_bot.PriceMath.{PriceMath, initial, set_chainlink_listener, init_chainlink_feeds}
use liquid_bot.PriceMath.Fetch.{get_usd_price}
use liquid_bot.PriceMath.Quotes.{Gives}
use liquid_bot.PriceMath.Refines.{first_answer}
use liquid_bot.PriceMath.Layers.{get_usd_price-Gives}
use liquid_bot.PriceMath.Again.{get_usd_price-again}

abbrev feed : Text
feed = codes "0x00000000000000000000000000000000000000aA"

abbrev low_feed : Text
low_feed = codes "0x00000000000000000000000000000000000000aa"

abbrev token : Text
token = codes "0x00000000000000000000000000000000000000bB"

abbrev chain : FeedContract
chain = record { decimals = λ f. ok 8; latest_round_data = λ f. ok (pos 200000000) }

abbrev dead : FeedContract
dead = record { decimals = λ f. err (codes "x"); latest_round_data = λ f. err (codes "x") }

abbrev feeds : List (Text × Text)
feeds = (codes "weth", feed) ∷ []

abbrev state : PriceMath
state = record initial {
  chainlink_feed_addresses = (codes "WETH", feed) ∷ (codes "ETH", feed) ∷ [];
  address_to_feed_map = (to_lower_case token, low_feed) ∷ [];
  address_to_symbol_map = (to_lower_case token, codes "WETH") ∷ [];
}

configured :
    (init_chainlink_feeds feeds initial).1.chainlink_feed_addresses ≡ state.chainlink_feed_addresses
unfolding init_chainlink_feeds to_upper_case JsMap.set JsMap.get JsMap.has text_eq
configured = refl

get_usd_price-Gives_example :
    Gives chain state
      (first_answer chain 1000 50 state (to_upper_case (codes "Eth")))
      (get_usd_price 1000 chain 50 (codes "Eth") state)
unfolding JsMap.get
get_usd_price-Gives_example =
    get_usd_price-Gives 1000 chain 50 (codes "Eth") state (λ f d h. absurd cc)

abbrev price : ℤ
price = pos (2 * 10 ^ 18)

abbrev after_first : PriceMath
after_first = (get_usd_price 1000 chain 50 (codes "eth") state).1

get_usd_price-again_example :
    get_usd_price 1000 dead 900 (codes "eth") after_first
    ≡ (ok price, record after_first { local_hits = after_first.local_hits + 1 })
unfolding get_usd_price JsMap.get JsMap.has to_upper_case text_eq scale_ℤ
get_usd_price-again_example =
    get_usd_price-again 1000 chain dead 50 900 (codes "eth") state after_first price refl refl refl
      (omega arith)

abbrev listener : ChainlinkListener
listener = on_price_update 4 (add_feed chain (codes "WETH") feed new_listener)

abbrev listening : PriceMath
listening = set_chainlink_listener listener state

abbrev event : Log
event = record {
  now = 60;
  symbol = codes "WETH";
  feed = low_feed;
  decoded = ok (some (12, pos 300000000));
}

handle_log-once_example :
    let m =
      run (event ∷ []) (handle_log 60 (codes "WETH") low_feed (ok (some (11, pos 5))) listener).0 in
    handle_log 70 (codes "ETH") low_feed (ok (some (11, pos 7))) m ≡ (m, [])
handle_log-once_example =
    handle_log-once 60 70 (codes "WETH") (codes "ETH") low_feed 11 (pos 5) (pos 7) (event ∷ [])
      listener

-- The seed refuses a price that is not positive; an event does not.
negative_price :
    ChainlinkListener.get_cached_price feed
      (handle_log 60 (codes "WETH") low_feed (ok (some (12, negsuc 0))) listener).0
    ≡ some (negsuc (10 ^ 10 - 1))
unfolding handle_log on_price_update add_feed JsMap.get JsMap.set JsMap.has to_lower_case
    ChainlinkListener.get_cached_price text_eq scale_ℤ
negative_price = refl
