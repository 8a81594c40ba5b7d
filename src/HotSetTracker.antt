-- ===== src/HotSetTracker.antt =====
-- backend/src/services/HotSetTracker.ts: the users near liquidation, by health factor. Health
-- factors are in units of 1e-18, so that two of them compare as in the source. Time and the
-- address configuration are arguments.
pub mod Invariant
pub mod Calls
use liquid_bot.Prelude.{
  ℕ, ◌≡◌, Bool, true, false, Option, none, some, List, [], ◌∷◌, map, length, min, max, ltb, leb,
  take, if◌then◌else◌,
}
use liquid_bot.Prelude.Text.{Text, text_key}
use liquid_bot.Prelude.Sort.{sort}
use liquid_bot.Addresses.{normalize_address}
use liquid_bot.JsMap
use liquid_bot.JsMap.{JsMap, values}
use liquid_bot.JsMap.Evict.{higher}
use liquid_bot.JsMap.Bounded.{bounded_set}

pub data TriggerType : Type 0 where
  event head price : TriggerType

pub record HotSetEntry : Type 0 where
  pub address : Text
  pub hf : ℕ
  pub last_updated : ℕ
  pub last_block : ℕ
  pub total_collateral_usd : ℕ
  pub total_debt_usd : ℕ
  pub trigger_type : TriggerType

pub record HotSetTrackerConfig : Type 0 where
  pub hot_set_hf_max : ℕ
  pub warm_set_hf_max : ℕ
  pub max_hot_size : ℕ
  pub max_warm_size : ℕ

pub data SetCategory : Type 0 where
  hot warm cold : SetCategory

pub record HotSetTracker : Type 0 where
  pub hot_set : JsMap Text HotSetEntry
  pub warm_set : JsMap Text HotSetEntry
  pub config : HotSetTrackerConfig

-- The constructor; `none` is the error it throws.
unfoldable pub create : HotSetTrackerConfig → Option HotSetTracker
create c =
    if leb c.warm_set_hf_max c.hot_set_hf_max
    then none
    else some (record { hot_set = []; warm_set = []; config = c })

unfoldable pub categorize : HotSetTrackerConfig → ℕ → SetCategory
categorize c hf =
    if leb hf c.hot_set_hf_max then hot else if leb hf c.warm_set_hf_max then warm else cold

-- The test of the entry that `evictHighestHf` found is one of an object, which is always true.
abbrev pub found : Text → Bool
found address = true

unfoldable pub add_to_hot_set : HotSetEntry → HotSetTracker → HotSetTracker
add_to_hot_set entry t = record t {
  hot_set =
      bounded_set higher (λ e. e.hf) found t.config.max_hot_size entry.address entry t.hot_set;
}

unfoldable pub add_to_warm_set : HotSetEntry → HotSetTracker → HotSetTracker
add_to_warm_set entry t = record t {
  warm_set =
      bounded_set higher (λ e. e.hf) found t.config.max_warm_size entry.address entry t.warm_set;
}

unfoldable pub remove_from_all_sets : Text → HotSetTracker → HotSetTracker
remove_from_all_sets address t = record t {
  hot_set = JsMap.delete address t.hot_set;
  warm_set = JsMap.delete address t.warm_set;
}

unfoldable pub place : SetCategory → HotSetEntry → HotSetTracker → HotSetTracker
unfolding add_to_hot_set add_to_warm_set
place hot entry t = add_to_hot_set entry t
place warm entry t = add_to_warm_set entry t
place cold entry t = t

-- `lowercase` is the address configuration; the entry brings the arguments and the time.
unfoldable pub update : Bool → HotSetEntry → HotSetTracker → HotSetTracker × SetCategory
unfolding categorize remove_from_all_sets place normalize_address
update lowercase entry t =
    let normalized = normalize_address lowercase entry.address in
    let category = categorize t.config entry.hf in
    (
      place category (record entry { address = normalized }) (remove_from_all_sets normalized t),
      category,
    )

unfoldable pub remove : Bool → Text → HotSetTracker → HotSetTracker
unfolding remove_from_all_sets normalize_address
remove lowercase address t = remove_from_all_sets (normalize_address lowercase address) t

-- `a.hf - b.hf`
abbrev pub after : HotSetEntry → HotSetEntry → Bool
after a b = ltb b.hf a.hf

unfoldable pub get_hot_set : HotSetTracker → List HotSetEntry
get_hot_set t = sort after (values t.hot_set)

unfoldable pub get_warm_set : HotSetTracker → List HotSetEntry
get_warm_set t = sort after (values t.warm_set)

unfoldable pub get_top_k : ℕ → HotSetTracker → List HotSetEntry
unfolding get_hot_set
get_top_k k t = take (min k (length (get_hot_set t))) (get_hot_set t)

unfoldable pub is_in_hot_set : Bool → Text → HotSetTracker → Bool
unfolding normalize_address
is_in_hot_set lowercase address t = JsMap.has (normalize_address lowercase address) t.hot_set

unfoldable pub is_in_warm_set : Bool → Text → HotSetTracker → Bool
unfolding normalize_address
is_in_warm_set lowercase address t = JsMap.has (normalize_address lowercase address) t.warm_set

unfoldable pub get_category : Bool → Text → HotSetTracker → Option SetCategory
unfolding normalize_address
get_category lowercase address t =
    if JsMap.has (normalize_address lowercase address) t.hot_set
    then some hot
    else if JsMap.has (normalize_address lowercase address) t.warm_set
    then some warm
    else none

unfoldable pub get_low_hf_count : HotSetTracker → ℕ
get_low_hf_count t = JsMap.size t.hot_set

unfoldable pub clear : HotSetTracker → HotSetTracker
clear t = record t { hot_set = []; warm_set = [] }
