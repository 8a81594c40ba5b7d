-- ===== src/ActiveRiskSet.antt =====
-- backend-v2/src/risk/ActiveRiskSet.ts: the users at risk. Health factors are in units of 1e-18, or
-- infinite. An update of the user index runs on after the call that starts it: the calls return the
-- users whose update they start, and `update_user_index_for_user` is what it does in the end. The
-- two times that a call reads are one.
pub mod Valid
pub mod Results
pub mod Pruning
pub mod Refresh
use liquid_bot.Prelude.{
  ℕ, ◌+◌, ◌-◌, ◌*◌, ◌^◌, Bool, true, false, not, ◌&&◌, ◌||◌, Option, none, some, List, [], ◌∷◌,
  ◌++◌, keep, ltb, leb, if◌then◌else◌,
}
use liquid_bot.Prelude.Text.{Text, text_key, to_lower_case}
use liquid_bot.JsMap
use liquid_bot.JsMap.{JsMap, keys, values}
use liquid_bot.Planner.Types.{UserReserveData}
use liquid_bot.UserIndex.{UserIndex, set_user_tokens}
use liquid_bot.TokenExtractor.{extract_user_tokens}

pub data HealthFactor : Type 0 where
  finite : ℕ → HealthFactor
  infinity : HealthFactor

pub record CandidateUser : Type 0 where
  pub address : Text
  pub health_factor : HealthFactor
  pub last_debt_usd_1e18 : ℕ
  pub total_collateral_base : ℕ
  pub last_checked : ℕ
  pub last_index_refresh : Option ℕ

-- What the class reads of the configuration; `min_debt_usd` is rounded down.
pub record Settings : Type 0 where
  pub min_debt_usd : ℕ
  pub hf_threshold_start : ℕ
  pub index_refresh_ms : ℕ

pub record ActiveRiskSet : Type 0 where
  pub candidates : JsMap Text CandidateUser
  pub has_user_index : Bool
  pub has_data_provider : Bool

abbrev pub removal_hf_margin : ℕ
removal_hf_margin = 110 * 10 ^ 16

abbrev pub get_min_debt_threshold : Settings → ℕ
get_min_debt_threshold c = c.min_debt_usd * 10 ^ 18

unfoldable pub set_user_index : ActiveRiskSet → ActiveRiskSet
set_user_index s = record s { has_user_index = true }

unfoldable pub set_data_provider : ActiveRiskSet → ActiveRiskSet
set_data_provider s = record s { has_data_provider = true }

-- The update of a user's tokens, if both objects are there.
abbrev pub started : Text → ActiveRiskSet → List Text
started user s = if s.has_user_index && s.has_data_provider then user ∷ [] else []

unfoldable pub add :
    Settings → ℕ → Text → HealthFactor → ℕ → ℕ → ActiveRiskSet → ActiveRiskSet × List Text
add c now address health_factor debt total_collateral_base s =
    let normalized = to_lower_case address in
    if ltb 0 debt && ltb debt (get_min_debt_threshold c) then (s, []) else (
      record s {
        candidates =
            JsMap.set normalized
              (record {
                address = normalized;
                health_factor = health_factor;
                last_debt_usd_1e18 = debt;
                total_collateral_base = total_collateral_base;
                last_checked = now;
                last_index_refresh = none;
              })
              s.candidates;
      },
      started normalized s,
    )

unfoldable pub add_bulk : Settings → ℕ → List Text → ActiveRiskSet → ActiveRiskSet × List Text
unfolding add
add_bulk c now [] s = (s, [])
add_bulk c now (address ∷ addresses) s =
    let (t, first) = add c now address infinity 0 0 s in
    let (u, rest) = add_bulk c now addresses t in (u, first ++ rest)

-- `lastIndexRefresh || 0`
abbrev pub last_refresh : CandidateUser → ℕ
last_refresh candidate = elim candidate.last_index_refresh [ none ↦ 0 | some t ↦ t ]

-- Both objects are there, and enough time has passed.
abbrev pub is_due : Settings → ℕ → CandidateUser → ActiveRiskSet → Bool
is_due c now candidate s =
    (s.has_user_index && s.has_data_provider)
    && leb c.index_refresh_ms (now - last_refresh candidate)

-- The changes to the candidate.
abbrev pub updated : ℕ → HealthFactor → ℕ → ℕ → Bool → CandidateUser → CandidateUser
updated now health_factor debt total_collateral_base due candidate = record candidate {
  health_factor = health_factor;
  last_debt_usd_1e18 = debt;
  total_collateral_base = total_collateral_base;
  last_checked = now;
  last_index_refresh = if due then some now else candidate.last_index_refresh;
}

-- `updateHF` with a sufficient debt, for the candidate that was found.
unfoldable pub update_found :
    Settings
    → ℕ
    → Text
    → HealthFactor
    → ℕ
    → ℕ
    → Option CandidateUser
    → ActiveRiskSet
    → ActiveRiskSet × List Text
unfolding add
update_found c now normalized health_factor debt total_collateral_base none s =
    add c now normalized health_factor debt total_collateral_base s
update_found c now normalized health_factor debt total_collateral_base (some candidate) s =
    let due = is_due c now candidate s in
    (
      record s {
        candidates =
            JsMap.set normalized
              (updated now health_factor debt total_collateral_base due candidate) s.candidates;
      },
      if due then normalized ∷ [] else [],
    )

unfoldable pub update_hf :
    Settings → ℕ → Text → HealthFactor → ℕ → ℕ → ActiveRiskSet → ActiveRiskSet × List Text
unfolding update_found
update_hf c now address health_factor debt total_collateral_base s =
    let normalized = to_lower_case address in
    if ltb debt (get_min_debt_threshold c)
    then (
      if JsMap.has normalized s.candidates
          then record s { candidates = JsMap.delete normalized s.candidates }
          else s,
      [],
    )
    else update_found c now normalized health_factor debt total_collateral_base
        (JsMap.get normalized s.candidates) s

unfoldable pub get : Text → ActiveRiskSet → Option CandidateUser
get address s = JsMap.get (to_lower_case address) s.candidates

abbrev pub is_below : HealthFactor → ℕ → Bool
is_below infinity t = false
is_below (finite h) t = ltb h t

abbrev pub is_above : HealthFactor → ℕ → Bool
is_above infinity t = true
is_above (finite h) t = ltb t h

unfoldable pub get_below_threshold : Settings → ActiveRiskSet → List CandidateUser
get_below_threshold c s =
    keep
      (λ u.
        is_below u.health_factor c.hf_threshold_start
        && leb (get_min_debt_threshold c) u.last_debt_usd_1e18)
      (values s.candidates)

-- `shouldRemove` for the candidate that was found.
unfoldable pub is_removable : Settings → Option CandidateUser → Bool
is_removable c none = false
is_removable c (some u) =
    ltb u.last_debt_usd_1e18 (get_min_debt_threshold c)
    || is_above u.health_factor removal_hf_margin

unfoldable pub should_remove : Settings → Text → ActiveRiskSet → Bool
unfolding get is_removable
should_remove c address s = is_removable c (get address s)

-- One round of the loop, and what it adds to the count.
unfoldable pub prune_one : Settings → Text → ActiveRiskSet → ActiveRiskSet × ℕ
unfolding should_remove
prune_one c address s =
    if should_remove c address s
    then (record s { candidates = JsMap.delete address s.candidates }, 1)
    else (s, 0)

-- The loop, which deletes only keys that it has visited.
unfoldable pub prune_loop : Settings → List Text → ActiveRiskSet → ActiveRiskSet × ℕ
unfolding prune_one
prune_loop c [] s = (s, 0)
prune_loop c (address ∷ addresses) s =
    let (t, here_removed) = prune_one c address s in
    let (u, removed) = prune_loop c addresses t in (u, here_removed + removed)

unfoldable pub prune_healthy_users : Settings → ActiveRiskSet → ActiveRiskSet × ℕ
unfolding prune_loop
prune_healthy_users c s = prune_loop c (keys s.candidates) s

unfoldable pub get_all : ActiveRiskSet → List CandidateUser
get_all s = values s.candidates

unfoldable pub size : ActiveRiskSet → ℕ
size s = JsMap.size s.candidates

unfoldable pub remove : Text → ActiveRiskSet → ActiveRiskSet
remove address s = record s { candidates = JsMap.delete (to_lower_case address) s.candidates }

unfoldable pub clear : ActiveRiskSet → ActiveRiskSet
clear s = record s { candidates = [] }

-- `getAllUserReserves` is a parameter; `none` is a rejection, which leaves the index as it is.
unfoldable pub update_user_index_for_user :
    (Text → Option (List UserReserveData)) → Text → UserIndex → UserIndex
update_user_index_for_user get_all_user_reserves user index = elim (get_all_user_reserves user) [
  | none ↦ index
  | some reserves ↦ set_user_tokens user (extract_user_tokens reserves) index
]
