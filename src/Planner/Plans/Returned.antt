-- ===== src/Planner/Plans/Returned.antt =====
-- Once the reserves have been read, no rejection is left: the second reads of the decimals find
-- what the prefetch has cached.
use liquid_bot.Prelude.{
  ℕ, ◌≤◌, ◌≡◌, refl, ap, true, some, List, [], ◌∷◌, arith, length, keep, keep-All, All,
}
use liquid_bot.Prelude.Text.{Text, to_lower_case, text_key}
use liquid_bot.JsMap.{get}
use liquid_bot.Planner.Types.{UserReserveData, CandidatePlan, PairScore, Sources, Caches, Quotes}
use liquid_bot.Planner.Fetch.{prefetch}
use liquid_bot.Planner.Fetch.Cached.{prefetch-decimals_cached}
use liquid_bot.Planner.Score.{quote, score_pairs}
use liquid_bot.Planner.Score.Sound.{Scored, score_pairs-Scored}
use liquid_bot.Planner.Select.Best.{top_pairs-All, top_pairs-best}
use liquid_bot.Planner.Select.{top_n_pairs, top_pairs, select_top_pairs}
use liquid_bot.Planner.Plans.{
  Result, returned, has_debt, has_collateral, pair_decimals, candidate, candidates, on_positions,
  with_positions, build_candidate_plans,
}

quote-decimals :
    (q : Quotes) (a : Text) {p d : ℕ} → quote q a ≡ some (p, d) → get a q.decimals ≡ some d
unfolding quote
quote-decimals q a h = ground arith

-- Both reads hit, so the caches stay as they are.
pair_decimals-cached :
    (src : Sources) (caches : Caches) (p : PairScore) {d c : ℕ}
    → get (to_lower_case p.debt_reserve.underlying_asset) caches.token_decimals_cache ≡ some d
    → get (to_lower_case p.collateral_reserve.underlying_asset) caches.token_decimals_cache ≡ some c
    → pair_decimals src caches p ≡ (caches, returned (d, c))
unfolding pair_decimals
pair_decimals-cached src caches p hd hc = ground arith

abbrev pub PlannerScored : Quotes → PairScore → Type 0
PlannerScored = Scored (λ r. has_debt r ≡ true) (λ r. has_collateral r ≡ true)

-- A plan spells out a sound pair of one of the user's debts and one of the user's collaterals.
abbrev pub IsPlanned : Quotes → CandidatePlan → Type 0
IsPlanned q c = (p : PairScore) × (ds : ℕ × ℕ) × PlannerScored q p × (candidate p ds ≡ c)

abbrev Cached : Quotes → Caches → Type 0
Cached q caches =
    (k : Text) (d : ℕ) → get k q.decimals ≡ some d → get k caches.token_decimals_cache ≡ some d

pair_decimals-returned :
    (src : Sources) (q : Quotes) (caches : Caches) (p : PairScore)
    → Cached q caches
    → PlannerScored q p
    → (ds : ℕ × ℕ) × (pair_decimals src caches p ≡ (caches, returned ds))
pair_decimals-returned src q caches p cached (_, _, (dq, cq, _, hd, hc, _, _), _) = (
  (dq.1, cq.1),
  pair_decimals-cached src caches p (cached _ _ (quote-decimals q _ hd))
      (cached _ _ (quote-decimals q _ hc)),
)

candidates-returned :
    (src : Sources) (q : Quotes) (caches : Caches) (ps : List PairScore)
    → Cached q caches
    → All (PlannerScored q) ps
    → (plans : List CandidatePlan) × (candidates src caches ps ≡ (caches, returned plans))
      × (length plans ≡ length ps)
      × All (IsPlanned q) plans
unfolding candidates
candidates-returned src q caches [] cached h = ([], refl, refl, tt)
candidates-returned src q caches (p ∷ ps) cached h =
    let (ds, e) = pair_decimals-returned src q caches p cached h.0 in
    let (plans, rest, same, planned) = candidates-returned src q caches ps cached h.1 in
    (candidate p ds ∷ plans, ground arith, omega (arith, same), ((p, ds, h.0, refl), planned))

on_positions_cases {ℓ κ} :
    {A : Type ℓ} (P : Caches × Result A → Type κ) (caches : Caches) (empty : A)
    (found : List UserReserveData → List UserReserveData → Caches × Result A)
    (ds cs : List UserReserveData)
    → P (caches, returned empty)
    → P (found ds cs)
    → P (on_positions caches empty found ds cs)
unfolding on_positions
on_positions_cases P caches empty found [] cs p q = p
on_positions_cases P caches empty found (d ∷ ds) [] p q = p
on_positions_cases P caches empty found (d ∷ ds) (c ∷ cs) p q = q

abbrev Returns : Quotes → Caches × Result (List CandidatePlan) → Type 0
Returns q r =
    (plans : List CandidatePlan) × (r.1 ≡ returned plans)
    × (length plans ≤ top_n_pairs)
    × All (IsPlanned q) plans

-- What the prefetch for a user with these reserves finds out.
abbrev pub user_quotes : Sources → Caches → List UserReserveData → Quotes
user_quotes src caches reserves =
    (prefetch src caches (keep has_debt reserves) (keep has_collateral reserves)).1

selected-Returns :
    (src : Sources) (caches : Caches) (ds cs : List UserReserveData)
    → All (λ r. has_debt r ≡ true) ds
    → All (λ r. has_collateral r ≡ true) cs
    → let r = select_top_pairs src caches ds cs in
      Returns (prefetch src caches ds cs).1 (candidates src r.0 r.1)
unfolding select_top_pairs
selected-Returns src caches ds cs hd hc =
    let (caches', q) = prefetch src caches ds cs in
    let scored = score_pairs q ds cs in
    let (plans, e, same, planned) =
      candidates-returned src q caches' (top_pairs scored)
        (prefetch-decimals_cached src caches ds cs)
        (top_pairs-All (PlannerScored q) scored (score_pairs-Scored _ _ q ds cs hd hc)) in
    (plans, ap (λ r. r.1) e, omega (arith, same, (top_pairs-best scored).0), planned)

-- For a user whose reserves can be read, `buildCandidatePlans` always returns: at most three plans,
-- each for a sound pair of a debt and a collateral of the user. Only the read of the reserves can
-- make it fail, whatever the caches, the price layer and the chain answer, with prices that are not
-- negative.
pub build_candidate_plans-returned :
    (src : Sources) (caches : Caches) (user : Text) {reserves : List UserReserveData}
    → src.all_user_reserves user ≡ some reserves
    → (plans : List CandidatePlan) × ((build_candidate_plans src caches user).1 ≡ returned plans)
      × (length plans ≤ top_n_pairs)
      × All (IsPlanned (user_quotes src caches reserves)) plans
unfolding build_candidate_plans with_positions
build_candidate_plans-returned src caches user {reserves} e =
    rw (e, with_positions)
      (on_positions_cases (Returns (user_quotes src caches reserves)) caches [] _
        (keep has_debt reserves) (keep has_collateral reserves) ([], refl, omega arith, tt)
        (selected-Returns src caches _ _ (keep-All has_debt reserves)
          (keep-All has_collateral reserves)))
