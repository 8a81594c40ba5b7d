-- ===== src/ActiveRiskSet/Results.antt =====
-- The results of the calls.
use mathlib.Core.Path.{subst}
use liquid_bot.Prelude.{
  ℕ, ap, sym, ◌+◌, ◌≤◌, ◌≡◌, refl, ◌∙◌, ◌&&◌, Option, none, some, arith, ltb, if◌then◌else◌,
  Bool-cases, inl, inr, beq_self,
}
use liquid_bot.Prelude.Text.{Text, text_key, to_lower_case, to_lower_case-to_lower_case}
use liquid_bot.JsMap
use liquid_bot.JsMap.{JsMap, keys, includes, Distinct}
use liquid_bot.JsMap.Laws.{get-set, get-delete, get-has}
use liquid_bot.ActiveRiskSet.{
  HealthFactor, CandidateUser, Settings, ActiveRiskSet, get_min_debt_threshold, add, updated,
  is_due, update_found, update_hf, get,
}

-- What a read of the user finds after `updateHF`.
abbrev pub Updates : Settings → HealthFactor → ℕ → ℕ → Option CandidateUser → Type 0
Updates c hf debt collateral none = debt + 1 ≤ get_min_debt_threshold c
Updates c hf debt collateral (some u) =
    (get_min_debt_threshold c ≤ debt)
    × (u.health_factor ≡ hf)
    × (u.last_debt_usd_1e18 ≡ debt)
    × (u.total_collateral_base ≡ collateral)

get-set_self :
    (k : Text) (u : CandidateUser) (m : JsMap Text CandidateUser)
    → JsMap.get k (JsMap.set k u m) ≡ some u
get-set_self k u m = get-set k k u m ∙ ap (λ b. if b then some u else JsMap.get k m) (beq_self k)

get-delete_self : (k : Text) (m : JsMap Text CandidateUser) → JsMap.get k (JsMap.delete k m) ≡ none
get-delete_self k m = get-delete k k m ∙ ap (λ b. if b then none else JsMap.get k m) (beq_self k)

add-Updates :
    (c : Settings) (now : ℕ) (address : Text) (hf : HealthFactor) (debt collateral : ℕ)
    (s : ActiveRiskSet)
    → get_min_debt_threshold c ≤ debt
    → Updates c hf debt collateral (get address (add c now address hf debt collateral s).0)
unfolding add get
add-Updates c now address hf debt collateral s large =
    elim (Bool-cases (ltb 0 debt && ltb debt (get_min_debt_threshold c))) [
      | inl y ↦ absurd (ground arith)
      | inr n ↦
          rw (n, if◌then◌else◌)
            (subst (Updates c hf debt collateral)
              (sym (get-set_self (to_lower_case address) _ s.candidates)) (large, refl, refl, refl))
    ]

update_found-Updates :
    (c : Settings) (now : ℕ) (k : Text) (hf : HealthFactor) (debt collateral : ℕ)
    (o : Option CandidateUser) (s : ActiveRiskSet)
    → to_lower_case k ≡ k
    → get_min_debt_threshold c ≤ debt
    → Updates c hf debt collateral
        (JsMap.get k (update_found c now k hf debt collateral o s).0.candidates)
unfolding update_found get
update_found-Updates c now k hf debt collateral none s low large =
    subst
      (λ j.
        Updates c hf debt collateral (JsMap.get j (add c now k hf debt collateral s).0.candidates))
      low (add-Updates c now k hf debt collateral s large)
update_found-Updates c now k hf debt collateral (some u) s low large =
    subst (Updates c hf debt collateral)
      (sym (get-set_self k (updated now hf debt collateral (is_due c now u s) u) s.candidates))
      (large, refl, refl, refl)

-- After `updateHF` the user is in the set exactly if the debt reaches the minimum, and then with
-- the values given, whether it was there before or not.
pub update_hf-Updates :
    (c : Settings) (now : ℕ) (address : Text) (hf : HealthFactor) (debt collateral : ℕ)
    (s : ActiveRiskSet)
    → Updates c hf debt collateral (get address (update_hf c now address hf debt collateral s).0)
unfolding update_hf get
update_hf-Updates c now address hf debt collateral s =
    let k = to_lower_case address in
    elim (Bool-cases (ltb debt (get_min_debt_threshold c))) [
      | inr n ↦
          rw (n, if◌then◌else◌)
            (update_found-Updates c now k hf debt collateral (JsMap.get k s.candidates) s
              (to_lower_case-to_lower_case address) (ground arith))
      | inl y ↦ elim (Bool-cases (JsMap.has k s.candidates)) [
        | inl h ↦
            rw (y, if◌then◌else◌)
              (rw (h, if◌then◌else◌)
                (subst (Updates c hf debt collateral) (sym (get-delete_self k s.candidates))
                  (ground arith)))
        | inr h ↦
            rw (y, if◌then◌else◌)
              (rw (h, if◌then◌else◌)
                (subst (Updates c hf debt collateral) (sym (get-has k s.candidates h))
                  (ground arith)))
      ]
    ]
