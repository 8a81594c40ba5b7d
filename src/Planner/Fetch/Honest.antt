-- ===== src/Planner/Fetch/Honest.antt =====
-- The quotes of the prefetch are the answers of the sources, for every address that is asked for.
use mathlib.Core.Path.{subst}
use liquid_bot.Prelude.{
  ℕ, ◌≡◌, refl, ◌⊎◌, inl, inr, true, Option, none, some, List, [], ◌∷◌, arith, In, here, there,
  Option-cases,
}
use liquid_bot.Prelude.Text.{Text, to_lower_case, text_key, text_eq_iff}
use liquid_bot.JsMap.{JsMap, keys, get, set}
use liquid_bot.JsMap.Laws.{get-set, In-keys-set, In-keys-set_self}
use liquid_bot.Planner.Types.{UserReserveData, Sources, Caches}
use liquid_bot.Planner.Fetch.{add_addresses, all_addresses, keep_result, fetch_prices, prefetch}

get-keep_result :
    (k a : Text) (r : Option ℕ) (m : JsMap Text ℕ)
    → get k (keep_result a r m) ≡ get k m
      ⊎ ((text_key.beq a k ≡ true) × (get k (keep_result a r m) ≡ r))
get-keep_result k a none m = inl refl
get-keep_result k a (some v) m = ground (arith, get-set a k v m)

-- A price in the map was there before, or is what the source answers.
fetch_prices-answer :
    (ask : Text → Option ℕ) (as_ : List Text) (m : JsMap Text ℕ) (k : Text)
    → (get k (fetch_prices ask as_ m) ≡ get k m) ⊎ (get k (fetch_prices ask as_ m) ≡ ask k)
unfolding fetch_prices
fetch_prices-answer ask [] m k = inl refl
fetch_prices-answer ask (a ∷ as_) m k = ground (
  arith,
  fetch_prices-answer ask as_ (keep_result a (ask a) m) k,
  get-keep_result k a (ask a) m,
  text_eq_iff a k,
)

-- Before the address is reached there is no price for it, or already the answer.
abbrev Pending : (Text → Option ℕ) → Text → JsMap Text ℕ → Type 0
Pending ask k m = (get k m ≡ none) ⊎ (get k m ≡ ask k)

Pending-keep_result :
    (ask : Text → Option ℕ) (a k : Text) (m : JsMap Text ℕ)
    → Pending ask k m
    → Pending ask k (keep_result a (ask a) m)
Pending-keep_result ask a k m h = ground (arith, get-keep_result k a (ask a) m, text_eq_iff a k)

answered_self :
    (ask : Text → Option ℕ) (k : Text) (m : JsMap Text ℕ)
    → Pending ask k m
    → get k (keep_result k (ask k) m) ≡ ask k
answered_self ask k m h = elim (Option-cases (ask k)) [
  | inl failed ↦ ground arith
  | inr (v, found) ↦ ground (arith, get-set k k v m, text_eq_iff k k)
]

fetch_prices-In :
    (ask : Text → Option ℕ) {k : Text} {as_ : List Text} (m : JsMap Text ℕ)
    → In k as_
    → Pending ask k m
    → get k (fetch_prices ask as_ m) ≡ ask k
unfolding fetch_prices
fetch_prices-In ask {k} m (here {x = a} {xs = as_} same) h =
    let done : get k (keep_result a (ask a) m) ≡ ask k = rw same (answered_self ask k m h) in
    ground (arith, done, fetch_prices-answer ask as_ (keep_result a (ask a) m) k)
fetch_prices-In ask {k} m (there {x = a} later) h =
    fetch_prices-In ask _ later (Pending-keep_result ask a k m h)

In-add_addresses_old :
    {k : Text} (rs : List UserReserveData) (seen : JsMap Text (Unit {0}))
    → In k (keys seen)
    → In k (keys (add_addresses rs seen))
unfolding add_addresses
In-add_addresses_old [] seen h = h
In-add_addresses_old (r ∷ rs) seen h =
    In-add_addresses_old rs _ (In-keys-set (to_lower_case r.underlying_asset) tt seen h)

In-add_addresses :
    {r : UserReserveData} {rs : List UserReserveData} (seen : JsMap Text (Unit {0}))
    → In r rs
    → In (to_lower_case r.underlying_asset) (keys (add_addresses rs seen))
unfolding add_addresses
In-add_addresses {r} seen (here {x = x} {xs = xs} same) = In-add_addresses_old xs _ (
    subst
      (λ z.
        In (to_lower_case z.underlying_asset)
          (keys (set (to_lower_case x.underlying_asset) tt seen)))
      same (In-keys-set_self (to_lower_case x.underlying_asset) tt seen))
In-add_addresses seen (there later) = In-add_addresses _ later

In-all_addresses :
    {r : UserReserveData} (ds cs : List UserReserveData)
    → In r ds ⊎ In r cs
    → In (to_lower_case r.underlying_asset) (all_addresses ds cs)
unfolding all_addresses
In-all_addresses ds cs (inl h) = In-add_addresses_old cs _ (In-add_addresses [] h)
In-all_addresses ds cs (inr h) = In-add_addresses _ h

-- For each position the scoring reads exactly the price that the source gives for its address, or
-- none if the source fails, whichever other positions there are.
pub prefetch-prices :
    (src : Sources) (caches : Caches) (ds cs : List UserReserveData) {r : UserReserveData}
    → In r ds ⊎ In r cs
    → get (to_lower_case r.underlying_asset) (prefetch src caches ds cs).1.prices
      ≡ src.usd_price_for_address (to_lower_case r.underlying_asset)
unfolding prefetch get
prefetch-prices src caches ds cs h =
    fetch_prices-In src.usd_price_for_address [] (In-all_addresses ds cs h) (inl refl)
