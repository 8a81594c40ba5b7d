-- ===== src/Tests/ActiveRiskSet.antt =====
-- A risk set with a user at risk, a healthy one, and one not yet checked.
use liquid_bot.Prelude.{◌*◌, ◌^◌, ◌≡◌, refl, true, none, some, List, [], ◌∷◌, All}
use liquid_bot.Prelude.Text.{codes, text_eq, text_key, to_lower_case, lower_unit}
use liquid_bot.JsMap
use liquid_bot.JsMap.{includes, add_all, keys}
use liquid_bot.Planner.Types.{UserReserveData}
use liquid_bot.TokenExtractor.{
  is_exposed, add_reserve, add_reserves, extract_user_tokens, exposes, any_exposes,
}
use liquid_bot.ActiveRiskSet.{
  finite, infinity, CandidateUser, Settings, ActiveRiskSet, add, add_bulk, update_found, update_hf,
  get, is_removable, should_remove, prune_one, prune_loop, prune_healthy_users, size, remove, clear,
  update_user_index_for_user, set_user_index, set_data_provider, get_below_threshold,
}
use liquid_bot.ActiveRiskSet.Valid.{
  IsValid, keys-lower, Call, bulk_adds, updates, step, run, run-step-IsValid,
}
use liquid_bot.ActiveRiskSet.Results.{Updates, update_hf-Updates}

program : Unit {0}
unfolding text_eq to_lower_case lower_unit JsMap.get JsMap.has JsMap.set JsMap.delete includes
    add_all is_exposed add_reserve add_reserves extract_user_tokens exposes any_exposes add add_bulk
    update_found update_hf get is_removable should_remove prune_one prune_loop prune_healthy_users
    size remove clear update_user_index_for_user set_user_index set_data_provider
    get_below_threshold step run
program = tt

abbrev settings : Settings
settings = record {
  min_debt_usd = 50;
  hf_threshold_start = 105 * 10 ^ 16;
  index_refresh_ms = 30000;
}

abbrev none_yet : ActiveRiskSet
none_yet = record { candidates = []; has_user_index = true; has_data_provider = true }

none_yet-IsValid : IsValid settings none_yet
none_yet-IsValid = record { distinct = tt; kept = tt }

abbrev calls : List Call
calls =
    bulk_adds 1 (codes "0xA1" ∷ codes "0xb0" ∷ codes "0xc2" ∷ [])
    ∷ updates 2 (codes "0xa1") (finite (101 * 10 ^ 16)) (100 * 10 ^ 18) 0
    ∷ updates 3 (codes "0xB0") (finite (120 * 10 ^ 16)) (100 * 10 ^ 18) 0
    ∷ []

abbrev three : ActiveRiskSet
three = run settings calls none_yet

abbrev at_risk : CandidateUser
at_risk = record {
  address = codes "0xa1";
  health_factor = finite (101 * 10 ^ 16);
  last_debt_usd_1e18 = 100 * 10 ^ 18;
  total_collateral_base = 0;
  last_checked = 2;
  last_index_refresh = none;
}

found : get (codes "0xA1") three ≡ some at_risk
unfolding program
found = refl

pruned_two : (prune_healthy_users settings three).1 ≡ 2
unfolding program
pruned_two = refl

dust :
    (update_hf settings 4 (codes "0xA1") infinity 1 0 three).0.candidates
    ≡ (remove (codes "0xa1") three).candidates
unfolding program
dust = refl

three-IsValid : IsValid settings three
three-IsValid = run-step-IsValid settings calls none_yet none_yet-IsValid

three_lower : All (λ k. to_lower_case k ≡ k) (keys three.candidates)
three_lower = keys-lower settings three.candidates three-IsValid.kept

-- The theorems at this input.
run-step-IsValid_example : IsValid settings (run settings calls none_yet)
run-step-IsValid_example = run-step-IsValid settings calls none_yet none_yet-IsValid

update_hf-Updates_example :
    Updates settings infinity
      (100 * 10 ^ 18)
      7
      (get (codes "0xA1") (update_hf settings 4 (codes "0xA1") infinity (100 * 10 ^ 18) 7 three).0)
update_hf-Updates_example =
    update_hf-Updates settings 4 (codes "0xA1") infinity (100 * 10 ^ 18) 7 three

abbrev wst_eth : UserReserveData
wst_eth = record {
  underlying_asset = codes "0xC1CBa3fCea344f92D9239c08C0568f6F2F0ee452";
  current_a_token_balance = 5;
  current_stable_debt = 0;
  current_variable_debt = 0;
  principal_stable_debt = 0;
  scaled_variable_debt = 0;
  stable_borrow_rate = 0;
  liquidity_rate = 0;
  stable_rate_last_updated = 0;
  usage_as_collateral_enabled = true;
}

anchored :
    extract_user_tokens (wst_eth ∷ [])
    ≡ codes "0xc1cba3fcea344f92d9239c08c0568f6f2f0ee452"
      ∷ codes "0x4200000000000000000000000000000000000006"
      ∷ []
unfolding program
anchored = refl
