-- ===== src/ChainlinkListener.antt =====
-- backend-v2/src/prices/ChainlinkListener.ts: the latest price of each feed, from the events of the
-- feeds. The chain and the decoder of events are parameters. A callback is a number, and a call of
-- it a value in the result: what a callback throws is caught. Log lines are left out.
pub mod Rounds
use liquid_bot.Prelude.{
  ℕ, suc, ◌+◌, ◌-◌, ◌^◌, Bool, true, false, Option, none, some, List, [], ◌∷◌, ◌++◌, map, ltb, ◌==◌,
  if◌then◌else◌,
}
use liquid_bot.Prelude.Int.{ℤ, pos, negsuc, ltb_ℤ, scale_ℤ}
use liquid_bot.Prelude.Text.{Text, codes, text_key, to_lower_case, decimal}
use liquid_bot.Prelude.Result.{Result, ok, err}
use liquid_bot.JsMap
use liquid_bot.JsMap.{JsMap, JsSet, add}

-- A feed's answer in units of 1e-18; it branches on the decimals as the source does.
unfoldable pub normalize : ℤ → ℕ → ℤ
normalize answer decimals =
    if decimals == 18
    then answer
    else if ltb decimals 18
    then scale_ℤ answer (10 ^ (18 - decimals)) 1
    else scale_ℤ answer 1 (10 ^ (decimals - 18))

pub record ChainlinkPriceUpdate : Type 0 where
  pub symbol : Text
  pub feed_address : Text
  pub answer : ℤ
  pub round_id : ℕ
  pub timestamp : ℕ

pub record ChainlinkListener : Type 0 where
  pub feeds : JsMap Text Text
  pub callbacks : List ℕ
  pub dedupe_cache : JsSet Text
  pub contracts : JsSet Text
  pub decimals_cache : JsMap Text ℕ
  pub latest_price_1e18 : JsMap Text ℤ

abbrev pub new_listener : ChainlinkListener
new_listener = record {
  feeds = [];
  callbacks = [];
  dedupe_cache = [];
  contracts = [];
  decimals_cache = [];
  latest_price_1e18 = [];
}

-- What a contract of a feed answers.
pub record FeedContract : Type 0 where
  pub decimals : Text → Result ℕ
  pub latest_round_data : Text → Result ℤ

abbrev pub remember_price : Text → ℤ → ChainlinkListener → ChainlinkListener
remember_price feed price l = record l {
  latest_price_1e18 = JsMap.set feed price l.latest_price_1e18;
}

-- The seed of a feed, once the decimals are read.
unfoldable pub seed : Text → ℕ → Result ℤ → ChainlinkListener → ChainlinkListener
unfolding normalize
seed feed decimals (err message) l = l
seed feed decimals (ok answer) l =
    if ltb_ℤ answer (pos 1) then l else remember_price feed (normalize answer decimals) l

unfoldable pub add_feed : FeedContract → Text → Text → ChainlinkListener → ChainlinkListener
unfolding seed
add_feed chain symbol feed_address l =
    let feed = to_lower_case feed_address in
    let listed : ChainlinkListener = record l { feeds = JsMap.set symbol feed l.feeds } in
    elim (chain.decimals feed_address) [
      | err message ↦ listed
      | ok decimals ↦
          seed feed decimals (chain.latest_round_data feed_address)
            (record listed { decimals_cache = JsMap.set feed decimals l.decimals_cache })
    ]

unfoldable pub on_price_update : ℕ → ChainlinkListener → ChainlinkListener
on_price_update callback l = record l { callbacks = l.callbacks ++ (callback ∷ []) }

-- The loop of `start`. A subscription that the provider refuses leaves the contract.
unfoldable pub subscribe :
    (Text → Bool) → JsMap Text Text → JsSet Text → JsSet Text × List (Text × Text)
subscribe accepts [] contracts = (contracts, [])
subscribe accepts ((symbol, feed) ∷ feeds) contracts =
    let (final, rest) = subscribe accepts feeds (add feed contracts) in
    (final, (if accepts feed then (symbol, feed) ∷ [] else []) ++ rest)

-- The listener, and the pairs whose events it takes.
unfoldable pub start : (Text → Bool) → ChainlinkListener → ChainlinkListener × List (Text × Text)
unfolding subscribe
start accepts l =
    let (contracts, pairs) = subscribe accepts l.feeds l.contracts in
    (record l { contracts = contracts }, pairs)

-- The timer that `start` sets.
unfoldable pub clear_dedupe : ChainlinkListener → ChainlinkListener
clear_dedupe l = record l { dedupe_cache = [] }

unfoldable pub dedupe_key : ℕ → Text → Text
unfolding decimal
dedupe_key round_id feed = decimal round_id ++ codes ":" ++ feed

-- A call of a callback.
abbrev pub Notice : Type 0
Notice = ℕ × ChainlinkPriceUpdate

abbrev pub notices : List ℕ → ChainlinkPriceUpdate → List Notice
notices callbacks update = map (λ callback. (callback, update)) callbacks

abbrev pub update_of : ℕ → Text → Text → ℕ → ℤ → ChainlinkPriceUpdate
update_of now symbol feed round_id price = record {
  symbol = symbol;
  feed_address = feed;
  answer = price;
  round_id = round_id;
  timestamp = now;
}

-- An event that is not a repetition, once its key is added.
unfoldable pub take_round :
    ℕ → Text → Text → ℕ → ℤ → ChainlinkListener → ChainlinkListener × List Notice
unfolding normalize
take_round now symbol feed round_id raw_answer l = elim (JsMap.get feed l.decimals_cache) [
  | none ↦ (l, [])
  | some decimals ↦ (
    remember_price feed (normalize raw_answer decimals) l,
    notices l.callbacks (update_of now symbol feed round_id (normalize raw_answer decimals)),
  )
]

abbrev pub with_key : Text → ChainlinkListener → ChainlinkListener
with_key key l = record l { dedupe_cache = add key l.dedupe_cache }

-- `handleLog`; the decoder gives the round and the answer, nothing, or an error, which is caught.
unfoldable pub handle_log :
    ℕ → Text → Text → Result (Option (ℕ × ℤ)) → ChainlinkListener → ChainlinkListener × List Notice
unfolding take_round dedupe_key
handle_log now symbol feed (err message) l = (l, [])
handle_log now symbol feed (ok none) l = (l, [])
handle_log now symbol feed (ok (some (round_id, raw_answer))) l =
    let key = dedupe_key round_id feed in
    if JsMap.has key l.dedupe_cache
    then (l, [])
    else take_round now symbol feed round_id raw_answer (with_key key l)

-- `price || null`
abbrev pub price_or_null : Option ℤ → Option ℤ
price_or_null none = none
price_or_null (some (pos n)) = if n == 0 then none else some (pos n)
price_or_null (some (negsuc n)) = some (negsuc n)

unfoldable pub get_cached_price : Text → ChainlinkListener → Option ℤ
get_cached_price feed_address l =
    price_or_null (JsMap.get (to_lower_case feed_address) l.latest_price_1e18)

unfoldable pub stop : ChainlinkListener → ChainlinkListener
stop l = record l { contracts = [] }
