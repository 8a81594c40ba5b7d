-- ===== src/Tests/GasBursts.antt =====
-- Two checks of one transaction that overlap.
use liquid_bot.Prelude.{◌≤◌, ◌≡◌, refl, true, false, some, List, [], ◌∷◌}
use liquid_bot.Prelude.Text.{Text, codes, text_eq}
use liquid_bot.Prelude.Result.{ok}
use liquid_bot.JsMap
use liquid_bot.GasBurstManager.{PendingTransaction, Check, Reply, create, track, new_fees, resume}
use liquid_bot.GasBurstManager.Counts.{World, Reach, here, next, tracks, goes_on, bumps}
use liquid_bot.GasBurstManager.Bound.{start, Reach-bumps-le}
use liquid_bot.GasBurstManager.Bounded.{most_bumps}

abbrev hash : Text
hash = codes "0x1"

abbrev tx : PendingTransaction
tx = record {
  tx_hash = hash;
  signed_tx = codes "0xf8";
  nonce = 7;
  gas_price = 100;
  max_fee_per_gas = some 100;
  max_priority_fee_per_gas = some 10;
  sent_at = 0;
  bump_count = 0;
}

abbrev reply : Reply
reply = record {
  receipt_found = ok false;
  signed = ok (codes "0xf9");
  response = ok (codes "0x2");
  time = 5;
}

record Run : Type 0 where
  last : World
  reach : Reach (start true 10 25 1) last

-- The first check goes on, or the second one.
first_of : {w : World} → Reach (start true 10 25 1) w → (cs : List Check) → w.checks ≡ cs → Run
first_of r [] e = record { last = _; reach = r }
first_of r (c ∷ after) e = record { last = _; reach = next r (goes_on [] after c reply e) }

second_of : {w : World} → Reach (start true 10 25 1) w → (cs : List Check) → w.checks ≡ cs → Run
second_of r [] e = record { last = _; reach = r }
second_of r (c ∷ []) e = record { last = _; reach = r }
second_of r (a ∷ c ∷ after) e = record {
  last = _;
  reach = next r (goes_on (a ∷ []) after c reply e);
}

one : Run → Run
unfolding first_of
one r = first_of r.reach r.last.checks refl

two : Run → Run
unfolding second_of
two r = second_of r.reach r.last.checks refl

-- Both timers fire before the first replacement is taken.
overlap : Run
unfolding one two
overlap = one (
    one (one (one (one (one (two (one (record { last = _; reach = next here (tracks tx tt) }))))))))

-- The maximum of 1 is exceeded.
overlap_twice : bumps 0 overlap.last.manager ≡ 2
unfolding overlap bumps create track resume JsMap.get JsMap.set text_eq new_fees
overlap_twice = refl

Reach-bumps-le_example : bumps 0 overlap.last.manager ≤ most_bumps 1
Reach-bumps-le_example = Reach-bumps-le 0 true 10 25 1 overlap.reach
