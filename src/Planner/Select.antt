-- ===== src/Planner/Select.antt =====
-- `selectTopPairs` and `selectBestPair`. The source writes the two phases out twice; they are the
-- same text, modelled once.
pub mod Best
use liquid_bot.Prelude.{ℕ, Bool, Option, none, some, List, [], ◌∷◌, take}
use liquid_bot.Prelude.Int.{ltb_ℤ}
use liquid_bot.Prelude.Sort.{sort}
use liquid_bot.Planner.Types.{UserReserveData, PairScore, Sources, Caches, Quotes}
use liquid_bot.Planner.Fetch.{prefetch}
use liquid_bot.Planner.Score.{score_pairs}

abbrev pub top_n_pairs : ℕ
top_n_pairs = 3

-- `(a, b) => b.score - a.score` puts `a` behind `b`
abbrev pub after : PairScore → PairScore → Bool
after a b = ltb_ℤ a.score b.score

-- `scoredPairs.sort(...).slice(0, TOP_N_PAIRS)`
unfoldable pub top_pairs : List PairScore → List PairScore
unfolding sort
top_pairs scored = take top_n_pairs (sort after scored)

abbrev pub first {ℓ} : {A : Type ℓ} → List A → Option A
first [] = none
first (x ∷ xs) = some x

-- The early return on no scored pair, and the first of the best.
unfoldable pub best_pair : List PairScore → Option PairScore
unfolding top_pairs
best_pair [] = none
best_pair (p ∷ ps) = first (top_pairs (p ∷ ps))

unfoldable pub select_top_pairs :
    Sources → Caches → List UserReserveData → List UserReserveData → Caches × List PairScore
unfolding top_pairs
select_top_pairs src caches debts collaterals =
    let (caches', q) = prefetch src caches debts collaterals in
    (caches', top_pairs (score_pairs q debts collaterals))

unfoldable pub select_best_pair :
    Sources → Caches → List UserReserveData → List UserReserveData → Caches × Option PairScore
unfolding best_pair
select_best_pair src caches debts collaterals =
    let (caches', q) = prefetch src caches debts collaterals in
    (caches', best_pair (score_pairs q debts collaterals))
