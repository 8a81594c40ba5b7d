-- ===== src/NearBandFilter.antt =====
-- backend/src/predictive/NearBandFilter.ts: the users near liquidation. Health factors and dollars
-- are whole numbers of units of 1e-18, and a snapshot has the fields that are read. Log lines are left
-- out.
pub mod Range
use liquid_bot.Prelude.{
  ℕ, ◌+◌, ◌*◌, ◌^◌, Bool, true, false, ◌&&◌, Option, none, some, List, [], ◌∷◌, ◌++◌, ltb, leb, min,
  max, if◌then◌else◌,
}

pub record UserSnapshot : Type 0 where
  pub hf : ℕ
  pub debt_usd : Option ℕ
  pub projected_hf : Option ℕ

pub record NearBandFilterConfig : Type 0 where
  pub near_band_bps : ℕ
  pub min_debt_usd : ℕ
  pub hf_pred_critical : ℕ

pub record HfRange : Type 0 where
  pub lowest : ℕ
  pub highest : ℕ

pub record NearBandFilterResult : Type 0 where
  pub kept : List UserSnapshot
  pub skipped : ℕ
  pub hf_range : HfRange

-- `debtUsd !== undefined && debtUsd < minDebtUsd`
abbrev pub is_small_debt : ℕ → Option ℕ → Bool
is_small_debt limit none = false
is_small_debt limit (some debt) = ltb debt limit

-- `projectedHf !== undefined && projectedHf <= hfPredCritical`
abbrev pub is_critical : ℕ → Option ℕ → Bool
is_critical limit none = false
is_critical limit (some hf) = leb hf limit

abbrev pub near_band_threshold : NearBandFilterConfig → ℕ
near_band_threshold c = 10 ^ 18 + c.near_band_bps * 10 ^ 14

unfoldable pub should_check : NearBandFilterConfig → UserSnapshot → Bool
should_check c s =
    if is_small_debt c.min_debt_usd s.debt_usd
    then false
    else if leb (10 ^ 18) s.hf && leb s.hf (near_band_threshold c)
    then true
    else if ltb s.hf (10 ^ 18)
    then true
    else is_critical c.hf_pred_critical s.projected_hf

-- The variables of the loop; `none` is `Number.MAX_VALUE`.
pub record Loop : Type 0 where
  pub kept : List UserSnapshot
  pub skipped : ℕ
  pub min_hf : Option ℕ
  pub max_hf : ℕ

-- `Math.min(minHf, hf)`
abbrev pub lower_hf : Option ℕ → ℕ → ℕ
lower_hf none hf = hf
lower_hf (some least) hf = min least hf

unfoldable pub filter_one : NearBandFilterConfig → UserSnapshot → Loop → Loop
unfolding should_check
filter_one c snapshot l =
    if should_check c snapshot
    then record {
      kept = l.kept ++ (snapshot ∷ []);
      skipped = l.skipped;
      min_hf = some (lower_hf l.min_hf snapshot.hf);
      max_hf = max l.max_hf snapshot.hf;
    }
    else record l { skipped = l.skipped + 1 }

unfoldable pub filter_loop : NearBandFilterConfig → List UserSnapshot → Loop → Loop
unfolding filter_one
filter_loop c [] l = l
filter_loop c (snapshot ∷ snapshots) l = filter_loop c snapshots (filter_one c snapshot l)

abbrev pub or_zero : Option ℕ → ℕ
or_zero none = 0
or_zero (some n) = n

abbrev pub initial : Loop
initial = record { kept = []; skipped = 0; min_hf = none; max_hf = 0 }

unfoldable pub filter : NearBandFilterConfig → List UserSnapshot → NearBandFilterResult
unfolding filter_loop
filter c snapshots =
    let l = filter_loop c snapshots initial in
    record {
      kept = l.kept;
      skipped = l.skipped;
      hf_range = record { lowest = or_zero l.min_hf; highest = l.max_hf };
    }
