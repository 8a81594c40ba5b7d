-- ===== src/Planner/Score/Sound.antt =====
-- What holds of every scored pair, and that no pair is overlooked.
use liquid_bot.Prelude.{
  ℕ, ◌-◌, ◌*◌, ◌/◌, ◌≤◌, ◌<◌, ◌≡◌, refl, true, some, List, [], ◌∷◌, arith, All, All-append, In,
  here, there, In-append_left, In-append_right, Option-cases, inl, inr,
}
use liquid_bot.Prelude.Int.{ℤ, pos, negsuc, pos_part, sub_ℕ, ◌-ℤ◌, scale_ℤ, ltb_ℤ}
use liquid_bot.Prelude.Text.{to_lower_case, text_key}
use liquid_bot.JsMap.{get}
use mathlib.Core.Path.{subst}
use liquid_bot.Planner.Types.{ReserveConfig, UserReserveData, PairScore, Quotes}
use liquid_bot.Planner.Amounts.{calculate_usd_value, calculate_expected_collateral}
use liquid_bot.Planner.Amounts.Bounds.{usd-expected-le}
use liquid_bot.Planner.Score.{
  total_debt, debt_to_cover, quote, conservative_profit, pair_score, priced_pair,
  liquidation_bonus_bps, score_pair, score_collaterals, score_pairs,
}

-- A pair that the planner may liquidate.
pub record IsSound (p : PairScore) : Type 0 where
  -- At most half of the debt is repaid.
  pub within_close_factor : p.debt_to_cover * 2 ≤ total_debt p.debt_reserve
  -- The user has the collateral that is expected.
  pub affordable : p.expected_collateral_out ≤ p.collateral_reserve.current_a_token_balance
  -- The collateral is worth more than the debt.
  pub gains : p.debt_usd_1e18 < p.collateral_usd_1e18
  pub profitable : ltb_ℤ (pos 0) p.score ≡ true
  pub exact_score : p.oracle_score_big_int ≡ p.score
  -- The score is the difference, less a haircut of 2 percent that is rounded down.
  pub haircut :
      p.score
      ≡ pos (
          p.collateral_usd_1e18
          - p.debt_usd_1e18
          - (p.collateral_usd_1e18 - p.debt_usd_1e18) * 200 / 10000)
  -- No pair promises more than its liquidation bonus.
  pub bonus_bounds :
      (p.collateral_usd_1e18 - p.debt_usd_1e18) * 10000 ≤ p.debt_usd_1e18 * p.liquidation_bonus_bps

cover_half : (r : UserReserveData) → debt_to_cover r * 2 ≤ total_debt r
unfolding debt_to_cover
cover_half r = omega arith

-- The haircut leaves a loss a loss, and of a gain what is stated.
haircut-pos :
    (z : ℤ)
    → ltb_ℤ (pos 0) (z -ℤ scale_ℤ z 200 10000) ≡ true
    → (0 < pos_part z) × (z -ℤ scale_ℤ z 200 10000 ≡ pos (pos_part z - pos_part z * 200 / 10000))
unfolding ◌-ℤ◌ scale_ℤ
haircut-pos (pos n) h = ground arith
haircut-pos (negsuc n) h = absurd (ground arith)

conservative_profit-pos :
    (out debt : ℕ)
    → ltb_ℤ (pos 0) (conservative_profit out debt) ≡ true
    → (debt < out) × (conservative_profit out debt ≡ pos (out - debt - (out - debt) * 200 / 10000))
unfolding conservative_profit
conservative_profit-pos out debt h = ground (arith, haircut-pos (sub_ℕ out debt) h)

pair_score-IsSound :
    (debt collateral : UserReserveData) (dq cq : ℕ × ℕ) (bonus : ℕ)
    → let p = pair_score debt collateral dq cq bonus in
      p.expected_collateral_out ≤ collateral.current_a_token_balance
      → ltb_ℤ (pos 0) p.score ≡ true
      → IsSound p
unfolding pair_score
pair_score-IsSound debt collateral (dp, dd) (cp, cd) bonus fits gain =
    let cover = debt_to_cover debt in
    let out = calculate_expected_collateral cover dd dp cd cp bonus in
    let profit =
      conservative_profit-pos (calculate_usd_value out cd cp) (calculate_usd_value cover dd dp)
        gain in
    record {
      within_close_factor = cover_half debt;
      affordable = fits;
      gains = profit.0;
      profitable = gain;
      exact_score = refl;
      haircut = profit.1;
      bonus_bounds = omega (arith, usd-expected-le cover dd dp cd cp bonus);
    }

priced_pair-some :
    (debt collateral : UserReserveData) (dq cq : ℕ × ℕ) (bonus : ℕ) {p : PairScore}
    → priced_pair debt collateral dq cq bonus ≡ some p
    → let s = pair_score debt collateral dq cq bonus in
      (s ≡ p)
      × (s.expected_collateral_out ≤ collateral.current_a_token_balance)
      × (ltb_ℤ (pos 0) s.score ≡ true)
unfolding priced_pair
priced_pair-some debt collateral dq cq bonus h = ground arith

score_pair-some :
    (q : Quotes) (debt : UserReserveData) (dq : ℕ × ℕ) (collateral : UserReserveData)
    {p : PairScore}
    → score_pair q debt dq collateral ≡ some p
    → (cq : ℕ × ℕ) × (config : ReserveConfig) × (quote q (to_lower_case collateral.underlying_asset)
        ≡ some cq)
      × (get (to_lower_case collateral.underlying_asset) q.configs ≡ some config)
      × (priced_pair debt collateral dq cq (liquidation_bonus_bps config) ≡ some p)
unfolding score_pair
score_pair-some q debt dq collateral h = ground arith

-- Where the amounts of a pair come from: the quotes of its two assets, at the bonus of the
-- collateral's configuration.
abbrev pub IsPriced : Quotes → PairScore → Type 0
IsPriced q p =
    (dq : ℕ × ℕ) × (cq : ℕ × ℕ) × (config : ReserveConfig) × (quote q
        (to_lower_case p.debt_reserve.underlying_asset)
      ≡ some dq)
    × (quote q (to_lower_case p.collateral_reserve.underlying_asset) ≡ some cq)
    × (get (to_lower_case p.collateral_reserve.underlying_asset) q.configs ≡ some config)
    × (pair_score p.debt_reserve p.collateral_reserve dq cq (liquidation_bonus_bps config) ≡ p)

module _ (D C : UserReserveData → Type 0) (q : Quotes) where
  -- A sound pair of reserves that satisfy `D` and `C`.
  abbrev pub Scored : PairScore → Type 0
  Scored p = D p.debt_reserve × C p.collateral_reserve × IsPriced q p × IsSound p

  score_pair-Scored :
      (debt : UserReserveData) (dq : ℕ × ℕ) (collateral : UserReserveData) {p : PairScore}
      → D debt
      → C collateral
      → quote q (to_lower_case debt.underlying_asset) ≡ some dq
      → score_pair q debt dq collateral ≡ some p
      → Scored p
  unfolding pair_score
  score_pair-Scored debt dq collateral hd hc hq h =
      let (cq, config, eq, ec, e) = score_pair-some q debt dq collateral h in
      let (s, fits, gain) =
        priced_pair-some debt collateral dq cq (liquidation_bonus_bps config) e in
      subst Scored s (
        hd,
        hc,
        (dq, cq, config, hq, eq, ec, refl),
        pair_score-IsSound debt collateral dq cq (liquidation_bonus_bps config) fits gain,
      )

  score_collaterals-Scored :
      (debt : UserReserveData) (dq : ℕ × ℕ) (cs : List UserReserveData)
      → D debt
      → All C cs
      → quote q (to_lower_case debt.underlying_asset) ≡ some dq
      → All Scored (score_collaterals q debt dq cs)
  unfolding score_collaterals
  score_collaterals-Scored debt dq [] hd hc hq = tt
  score_collaterals-Scored debt dq (c ∷ cs) hd hc hq =
      let rest = score_collaterals-Scored debt dq cs hd hc.1 hq in
      elim (Option-cases (score_pair q debt dq c)) [
        | inl e ↦ rw (e, score_collaterals) rest
        | inr (p, e) ↦ rw (e, score_collaterals) (score_pair-Scored debt dq c hd hc.0 hq e, rest)
      ]

  -- With prices that are not negative, every scored pair is sound, is priced by the quotes, and is made
  -- of the given positions.
  pub score_pairs-Scored :
      (ds cs : List UserReserveData) → All D ds → All C cs → All Scored (score_pairs q ds cs)
  unfolding score_pairs
  score_pairs-Scored [] cs hd hc = tt
  score_pairs-Scored (d ∷ ds) cs hd hc =
      let rest = score_pairs-Scored ds cs hd.1 hc in
      elim (Option-cases (quote q (to_lower_case d.underlying_asset))) [
        | inl e ↦ rw (e, score_pairs) rest
        | inr (dq, e) ↦
            rw (e, score_pairs)
              (All-append Scored _ _ (score_collaterals-Scored d dq cs hd.0 hc e) rest)
      ]

-- No pair is overlooked: what two of the positions score is among the scored pairs.
module _ (q : Quotes) where
  score_collaterals_complete :
      (d : UserReserveData) (dq : ℕ × ℕ) {c : UserReserveData} {cs : List UserReserveData}
      {p : PairScore}
      → In c cs
      → score_pair q d dq c ≡ some p
      → In p (score_collaterals q d dq cs)
  unfolding score_collaterals
  score_collaterals_complete d dq {p = p} (here {x = x} e) h =
      let h' : score_pair q d dq x ≡ some p = rw e h in rw (h', score_collaterals) (here refl)
  score_collaterals_complete d dq (there {x = x} m) h =
      let rest = score_collaterals_complete d dq m h in
      elim (Option-cases (score_pair q d dq x)) [
        | inl e ↦ rw (e, score_collaterals) rest
        | inr (_, e) ↦ rw (e, score_collaterals) (there rest)
      ]

  pub score_pairs_complete :
      {d c : UserReserveData} {cs ds : List UserReserveData} (dq : ℕ × ℕ) {p : PairScore}
      → In d ds
      → In c cs
      → quote q (to_lower_case d.underlying_asset) ≡ some dq
      → score_pair q d dq c ≡ some p
      → In p (score_pairs q ds cs)
  unfolding score_pairs
  score_pairs_complete {d = d} {c = c} {cs = cs} dq {p = p} (here {x = x} {xs = ds} e) mc hq h =
      let hq' : quote q (to_lower_case x.underlying_asset) ≡ some dq = rw e hq in
      let h' : score_pair q x dq c ≡ some p = rw e h in
      rw (hq', score_pairs)
        (In-append_left (score_pairs q ds cs) (score_collaterals_complete x dq mc h'))
  score_pairs_complete {cs = cs} dq (there {x = x} m) mc hq h =
      let rest = score_pairs_complete dq m mc hq h in
      elim (Option-cases (quote q (to_lower_case x.underlying_asset))) [
        | inl e ↦ rw (e, score_pairs) rest
        | inr (xq, e) ↦ rw (e, score_pairs) (In-append_right (score_collaterals q x xq cs) rest)
      ]
