-- ===== src/Tests/HotSetTracker.antt =====
-- A tracker whose sets hold one user each.
use liquid_bot.Prelude.{◌*◌, ◌^◌, ◌≡◌, refl, true, false, none, some, [], ◌∷◌}
use liquid_bot.Prelude.Text.{codes, text_eq, text_key, to_lower_case, lower_unit}
use liquid_bot.Prelude.Sort.{insert, sort}
use liquid_bot.JsMap
use liquid_bot.JsMap.{values}
use liquid_bot.JsMap.Evict.{better, extreme}
use liquid_bot.JsMap.Bounded.{evict, make_room, bounded_set}
use liquid_bot.Addresses.{normalize_address}
use liquid_bot.HotSetTracker.{
  price, HotSetEntry, HotSetTrackerConfig, HotSetTracker, create, categorize, add_to_hot_set,
  add_to_warm_set, remove_from_all_sets, place, update, remove, get_hot_set, get_top_k,
  get_category, is_in_hot_set, clear,
}
use liquid_bot.HotSetTracker.Invariant.{IsValid}
use liquid_bot.HotSetTracker.Calls.{updates, removes, run, step, create-run-IsValid}

program : Unit {0}
unfolding text_eq to_lower_case lower_unit insert sort JsMap.get JsMap.has JsMap.set JsMap.delete
    better extreme evict make_room bounded_set normalize_address create categorize add_to_hot_set
    add_to_warm_set remove_from_all_sets place update remove get_hot_set get_top_k get_category
    is_in_hot_set clear run step
program = tt

abbrev config : HotSetTrackerConfig
config = record {
  hot_set_hf_max = 103 * 10 ^ 16;
  warm_set_hf_max = 110 * 10 ^ 16;
  max_hot_size = 1;
  max_warm_size = 1;
}

abbrev fresh : HotSetTracker
fresh = record { hot_set = []; warm_set = []; config = config }

created : create config ≡ some fresh
unfolding program
created = refl

swapped : create (record config { hot_set_hf_max = 110 * 10 ^ 16 }) ≡ none
unfolding program
swapped = refl

abbrev alice : HotSetEntry
alice = record {
  address = codes "0xA1";
  hf = 101 * 10 ^ 16;
  last_updated = 3;
  last_block = 7;
  total_collateral_usd = 200;
  total_debt_usd = 100;
  trigger_type = price;
}

abbrev bob : HotSetEntry
bob = record alice { address = codes "0xb0"; hf = 102 * 10 ^ 16 }

alice_moves :
    get_category true
      (codes "0xa1")
      (run true (updates alice ∷ updates (record alice { hf = 120 * 10 ^ 16 }) ∷ []) fresh)
    ≡ none
unfolding program
alice_moves = refl

bob_displaces :
    is_in_hot_set true (codes "0xa1") (run true (updates alice ∷ updates bob ∷ []) fresh) ≡ false
unfolding program
bob_displaces = refl

-- The theorems at this input.
create-run-IsValid_example :
    IsValid (run true (updates alice ∷ updates bob ∷ removes (codes "0xb0") ∷ []) fresh)
create-run-IsValid_example =
    create-run-IsValid true config (updates alice ∷ updates bob ∷ removes (codes "0xb0") ∷ [])
      created

abbrev both : HotSetTracker
both = record fresh { hot_set = (codes "0xb0", bob) ∷ (codes "0xa1", alice) ∷ [] }
