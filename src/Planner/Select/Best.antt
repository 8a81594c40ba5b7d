-- ===== src/Planner/Select/Best.antt =====
-- The selection: the best scored pairs, best first.
use mathlib.Core.List.{Perm}
use mathlib.Core.Path.{subst}
use liquid_bot.Prelude.{
  ◌≤◌, ◌≡◌, refl, ◌∙◌, Option-cases, inl, inr, true, false, none, some, List, [], ◌∷◌, ◌++◌, arith,
  length, take, drop, length-take, take-append-drop, All, All-take, In, All-In,
}
use liquid_bot.Prelude.Int.{◌≤ℤ◌}
use liquid_bot.Prelude.Sort.{
  sort, IsSorted, sort-perm, sort-All, sort-IsSorted, take-IsSorted, take-before-drop, In-sort,
}
use liquid_bot.Planner.Types.{UserReserveData, PairScore, Sources, Caches}
use liquid_bot.Planner.Select.{
  top_n_pairs, after, top_pairs, first, best_pair, select_top_pairs, select_best_pair,
}

after_asym : (a b : PairScore) → after a b ≡ true → after b a ≡ false
after_asym a b h = ground arith

after_chain : (a b c : PairScore) → after a b ≡ false → after b c ≡ false → after a c ≡ false
after_chain a b c h g = ground arith

after-le : (a b : PairScore) → after a b ≡ false → b.score ≤ℤ a.score
after-le a b h = ground arith

by_score-IsSorted : (scored : List PairScore) → IsSorted after (sort after scored)
by_score-IsSorted = sort-IsSorted after after_asym after_chain

-- What `sort` and `slice` return: at most three pairs, best first. With those that are cut off
-- they are all the scored pairs, and none that is cut off scores higher than one that is kept.
pub top_pairs-best :
    (scored : List PairScore)
    → (length (top_pairs scored) ≤ top_n_pairs)
      × IsSorted after (top_pairs scored)
      × (rest : List PairScore) × Perm (top_pairs scored ++ rest) scored
      × All (λ p. All (λ r. after p r ≡ false) rest) (top_pairs scored)
unfolding top_pairs
top_pairs-best scored =
    let sorted = sort after scored in
    (
      omega (arith, length-take top_n_pairs sorted),
      take-IsSorted after top_n_pairs sorted (by_score-IsSorted scored),
      drop top_n_pairs sorted,
      rw take-append-drop (sort-perm after scored),
      take-before-drop after top_n_pairs sorted (by_score-IsSorted scored),
    )

best_pair-first : (scored : List PairScore) → best_pair scored ≡ first (top_pairs scored)
unfolding best_pair top_pairs
best_pair-first [] = refl
best_pair-first (p ∷ ps) = refl

-- The two routines agree: `selectBestPair` is the first of `selectTopPairs`, and leaves the same
-- caches behind.
pub select_best_pair-first :
    (src : Sources) (caches : Caches) (ds cs : List UserReserveData)
    → select_best_pair src caches ds cs
      ≡ ((select_top_pairs src caches ds cs).0, first (select_top_pairs src caches ds cs).1)
unfolding select_best_pair select_top_pairs
select_best_pair-first src caches ds cs = rw best_pair-first refl

first-max :
    (l : List PairScore) {b p : PairScore}
    → IsSorted after l
    → first (take top_n_pairs l) ≡ some b
    → In p l
    → p.score ≤ℤ b.score
first-max [] s f m = cc
first-max (x ∷ xs) {b} {p} s f m =
    let same : x ≡ b = cc in
    let below : All (λ y. after x y ≡ false) (x ∷ xs) = (ground arith, s.0) in
    let behind : after x p ≡ false = All-In (λ y. after x y ≡ false) below m in
    after-le b p (subst (λ y. after y p ≡ false) same behind)

none-empty : (l : List PairScore) {p : PairScore} → first (take top_n_pairs l) ≡ none → In p l → ⊥
none-empty [] f m = elim m [ ]
none-empty (x ∷ xs) f m = cc

-- The best pair is the best of all: no debt and collateral of the user that can be priced at all
-- and score a pair have a higher score, and where one exists, a best pair is returned.
pub best_pair-max :
    {scored : List PairScore} {p : PairScore}
    → In p scored
    → (b : PairScore) × (best_pair scored ≡ some b) × (p.score ≤ℤ b.score)
unfolding top_pairs
best_pair-max {scored} m = elim (Option-cases (first (top_pairs scored))) [
  | inl e ↦ absurd (none-empty (sort after scored) e (In-sort after m))
  | inr (b, e) ↦ (
    b,
    best_pair-first scored ∙ e,
    first-max (sort after scored) (by_score-IsSorted scored) e (In-sort after m),
  )
]

pub top_pairs-All {κ} :
    (P : PairScore → Type κ) (scored : List PairScore) → All P scored → All P (top_pairs scored)
unfolding top_pairs
top_pairs-All P scored h = All-take P top_n_pairs _ (sort-All after P scored h)
