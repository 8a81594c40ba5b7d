-- ===== src/Planner/Fetch/Cached.antt =====
-- What the prefetch leaves behind: every decimals it reports is in the cache that later reads use.
use liquid_bot.Prelude.{ℕ, ◌≡◌, Option, some, List, [], ◌∷◌, arith, All, Option-cases, inl, inr}
use liquid_bot.Prelude.Text.{
  Text, to_lower_case, text_key, to_lower_case-to_lower_case, text_eq_iff,
}
use liquid_bot.JsMap.{JsMap, keys, get}
use liquid_bot.JsMap.Laws.{get-set, keys-set}
use liquid_bot.Planner.Types.{UserReserveData, Sources, Caches}
use liquid_bot.Planner.Fetch.{
  add_addresses, all_addresses, keep_result, get_token_decimals, fetch_decimals, prefetch,
}

abbrev IsLower : Text → Type 0
IsLower a = to_lower_case a ≡ a

add_addresses-IsLower :
    (rs : List UserReserveData) (seen : JsMap Text (Unit {0}))
    → All IsLower (keys seen)
    → All IsLower (keys (add_addresses rs seen))
unfolding add_addresses
add_addresses-IsLower [] seen h = h
add_addresses-IsLower (r ∷ rs) seen h =
    add_addresses-IsLower rs _ (
      keys-set IsLower (to_lower_case r.underlying_asset) tt seen (to_lower_case-to_lower_case _) h)

all_addresses-IsLower : (ds cs : List UserReserveData) → All IsLower (all_addresses ds cs)
unfolding all_addresses
all_addresses-IsLower ds cs = add_addresses-IsLower cs _ (add_addresses-IsLower ds [] tt)

-- All that the map of results knows, the cache knows too.
abbrev Agree : JsMap Text ℕ → JsMap Text ℕ → Type 0
Agree m cache = (k : Text) (d : ℕ) → get k m ≡ some d → get k cache ≡ some d

get_token_decimals-Agree :
    (ask : Text → Option ℕ) (a : Text) (cache m : JsMap Text ℕ)
    → IsLower a
    → Agree m cache
    → let r = get_token_decimals ask cache a in Agree (keep_result a r.1 m) r.0
unfolding get_token_decimals
get_token_decimals-Agree ask a cache m low agree k d h =
    elim (Option-cases (get (to_lower_case a) cache)) [
      | inr (d₀, hit) ↦
          ground
            (arith, get-set a k d₀ m, text_eq_iff a k, text_eq_iff (to_lower_case a) k, agree k d)
      | inl miss ↦ elim (Option-cases (ask a)) [
        | inl failed ↦ ground (arith, agree k d)
        | inr (d₀, found) ↦ ground (
          arith,
          get-set a k d₀ m,
          get-set (to_lower_case a) k d₀ cache,
          text_eq_iff a k,
          text_eq_iff (to_lower_case a) k,
          agree k d,
        )
      ]
    ]

fetch_decimals-Agree :
    (ask : Text → Option ℕ) (as_ : List Text) (cache m : JsMap Text ℕ)
    → All IsLower as_
    → Agree m cache
    → let r = fetch_decimals ask as_ cache m in Agree r.1 r.0
unfolding fetch_decimals
fetch_decimals-Agree ask [] cache m low agree = agree
fetch_decimals-Agree ask (a ∷ as_) cache m low agree =
    fetch_decimals-Agree ask as_ _ _ low.1 (get_token_decimals-Agree ask a cache m low.0 agree)

nothing : (k : Text) (d : ℕ) → ¬ (get k [] ≡ some d)
unfolding get
nothing k d h = cc

-- Whatever decimals the scoring phase reads, the cache of `getTokenDecimals` holds afterwards.
pub prefetch-decimals_cached :
    (src : Sources) (caches : Caches) (ds cs : List UserReserveData) (k : Text) (d : ℕ)
    → let r = prefetch src caches ds cs in
      get k r.1.decimals ≡ some d → get k r.0.token_decimals_cache ≡ some d
unfolding prefetch
prefetch-decimals_cached src caches ds cs =
    fetch_decimals-Agree src.contract_decimals (all_addresses ds cs) caches.token_decimals_cache []
      (all_addresses-IsLower ds cs) (λ k d h. absurd (nothing k d h))
