-- ===== src/ActiveRiskSet/Valid.antt =====
-- What holds of the set after any calls.
use liquid_bot.Prelude.{
  ℕ, ◌≤◌, ◌≡◌, ◌⊎◌, refl, false, ◌&&◌, Option, none, some, List, [], ◌∷◌, arith, All, ltb,
  if◌then◌else◌, Bool-cases, inl, inr,
}
use liquid_bot.Prelude.Text.{Text, text_key, to_lower_case, to_lower_case-to_lower_case}
use liquid_bot.JsMap
use liquid_bot.JsMap.{JsMap, keys, Distinct}
use liquid_bot.JsMap.Laws.{Distinct-set, Distinct-delete}
use liquid_bot.JsMap.Entries.{All-set, All-delete, All-get}
use liquid_bot.ActiveRiskSet.{
  HealthFactor, infinity, CandidateUser, Settings, ActiveRiskSet, get_min_debt_threshold,
  set_user_index, set_data_provider, add, add_bulk, updated, is_due, update_found, update_hf,
  should_remove, prune_one, prune_loop, prune_healthy_users, remove, clear,
}

-- An entry under its own address, in lower case, with a debt that is not yet known or reaches the
-- minimum.
pub record IsKept (c : Settings) (entry : Text × CandidateUser) : Type 0 where
  pub own_key : entry.0 ≡ entry.1.address
  pub lower_key : to_lower_case entry.0 ≡ entry.0
  pub debt :
      (entry.1.last_debt_usd_1e18 ≡ 0) ⊎ (get_min_debt_threshold c ≤ entry.1.last_debt_usd_1e18)

pub record IsValid (c : Settings) (s : ActiveRiskSet) : Type 0 where
  pub distinct : Distinct s.candidates
  pub kept : All (IsKept c) s.candidates

pub keys-lower :
    (c : Settings) (m : JsMap Text CandidateUser)
    → All (IsKept c) m
    → All (λ k. to_lower_case k ≡ k) (keys m)
keys-lower c [] h = tt
keys-lower c (x ∷ m) h = (h.0.lower_key, keys-lower c m h.1)

delete-IsValid :
    (c : Settings) (k : Text) (s : ActiveRiskSet)
    → IsValid c s
    → IsValid c (record s { candidates = JsMap.delete k s.candidates })
delete-IsValid c k s v = record {
  distinct = Distinct-delete k s.candidates v.distinct;
  kept = All-delete (IsKept c) k s.candidates v.kept;
}

set-IsValid :
    (c : Settings) (k : Text) (u : CandidateUser) (s : ActiveRiskSet)
    → IsKept c (k, u)
    → IsValid c s
    → IsValid c (record s { candidates = JsMap.set k u s.candidates })
set-IsValid c k u s fine v = record {
  distinct = Distinct-set k u s.candidates v.distinct;
  kept = All-set (IsKept c) k u s.candidates fine v.kept;
}

known_debt : (limit debt : ℕ) → (ltb 0 debt && ltb debt limit) ≡ false → (debt ≡ 0) ⊎ (limit ≤ debt)
known_debt limit debt h = ground arith

add-IsValid :
    (c : Settings) (now : ℕ) (address : Text) (hf : HealthFactor) (debt collateral : ℕ)
    (s : ActiveRiskSet)
    → IsValid c s
    → IsValid c (add c now address hf debt collateral s).0
unfolding add
add-IsValid c now address hf debt collateral s v =
    elim (Bool-cases (ltb 0 debt && ltb debt (get_min_debt_threshold c))) [
      | inl y ↦ rw (y, if◌then◌else◌) v
      | inr n ↦
          rw (n, if◌then◌else◌)
            (set-IsValid c (to_lower_case address) _ s
              (record {
                own_key = refl;
                lower_key = to_lower_case-to_lower_case address;
                debt = known_debt (get_min_debt_threshold c) debt n;
              })
              v)
    ]

add_bulk-IsValid :
    (c : Settings) (now : ℕ) (addresses : List Text) (s : ActiveRiskSet)
    → IsValid c s
    → IsValid c (add_bulk c now addresses s).0
unfolding add_bulk
add_bulk-IsValid c now [] s v = v
add_bulk-IsValid c now (address ∷ addresses) s v =
    add_bulk-IsValid c now addresses (add c now address infinity 0 0 s).0
      (add-IsValid c now address infinity 0 0 s v)

update_found-IsValid :
    (c : Settings) (now : ℕ) (k : Text) (hf : HealthFactor) (debt collateral : ℕ)
    (o : Option CandidateUser) (s : ActiveRiskSet)
    → JsMap.get k s.candidates ≡ o
    → get_min_debt_threshold c ≤ debt
    → IsValid c s
    → IsValid c (update_found c now k hf debt collateral o s).0
unfolding update_found
update_found-IsValid c now k hf debt collateral none s found large v =
    add-IsValid c now k hf debt collateral s v
update_found-IsValid c now k hf debt collateral (some u) s found large v =
    let w = All-get (IsKept c) k s.candidates v.kept found in
    set-IsValid c k (updated now hf debt collateral (is_due c now u s) u) s
      (record { own_key = w.own_key; lower_key = w.lower_key; debt = inr large }) v

pub update_hf-IsValid :
    (c : Settings) (now : ℕ) (address : Text) (hf : HealthFactor) (debt collateral : ℕ)
    (s : ActiveRiskSet)
    → IsValid c s
    → IsValid c (update_hf c now address hf debt collateral s).0
unfolding update_hf
update_hf-IsValid c now address hf debt collateral s v =
    let k = to_lower_case address in
    elim (Bool-cases (ltb debt (get_min_debt_threshold c))) [
      | inr n ↦
          rw (n, if◌then◌else◌)
            (update_found-IsValid c now k hf debt collateral (JsMap.get k s.candidates) s refl
              (ground arith) v)
      | inl y ↦ elim (Bool-cases (JsMap.has k s.candidates)) [
        | inl h ↦ rw (y, if◌then◌else◌) (rw (h, if◌then◌else◌) (delete-IsValid c k s v))
        | inr h ↦ rw (y, if◌then◌else◌) (rw (h, if◌then◌else◌) v)
      ]
    ]

prune_one-IsValid :
    (c : Settings) (k : Text) (s : ActiveRiskSet) → IsValid c s → IsValid c (prune_one c k s).0
unfolding prune_one
prune_one-IsValid c k s v = elim (Bool-cases (should_remove c k s)) [
  | inl y ↦ rw (y, if◌then◌else◌) (delete-IsValid c k s v)
  | inr n ↦ rw (n, if◌then◌else◌) v
]

prune_loop-IsValid :
    (c : Settings) (ks : List Text) (s : ActiveRiskSet)
    → IsValid c s
    → IsValid c (prune_loop c ks s).0
unfolding prune_loop
prune_loop-IsValid c [] s v = v
prune_loop-IsValid c (k ∷ ks) s v =
    prune_loop-IsValid c ks (prune_one c k s).0 (prune_one-IsValid c k s v)

pub data Call : Type 0 where
  adds : ℕ → Text → HealthFactor → ℕ → ℕ → Call
  bulk_adds : ℕ → List Text → Call
  updates : ℕ → Text → HealthFactor → ℕ → ℕ → Call
  prunes : Call
  removes : Text → Call
  clears : Call
  indexes : Call
  provides : Call

unfoldable pub step : Settings → Call → ActiveRiskSet → ActiveRiskSet
step c (adds now address hf debt collateral) s = (add c now address hf debt collateral s).0
step c (bulk_adds now addresses) s = (add_bulk c now addresses s).0
step c (updates now address hf debt collateral) s = (update_hf c now address hf debt collateral s).0
step c prunes s = (prune_healthy_users c s).0
step c (removes address) s = remove address s
step c clears s = clear s
step c indexes s = set_user_index s
step c provides s = set_data_provider s

unfoldable pub run : Settings → List Call → ActiveRiskSet → ActiveRiskSet
unfolding step
run c [] s = s
run c (call ∷ calls) s = run c calls (step c call s)

step-IsValid :
    (c : Settings) (call : Call) (s : ActiveRiskSet) → IsValid c s → IsValid c (step c call s)
unfolding step prune_healthy_users remove clear set_user_index set_data_provider
step-IsValid c (adds now address hf debt collateral) s v =
    add-IsValid c now address hf debt collateral s v
step-IsValid c (bulk_adds now addresses) s v = add_bulk-IsValid c now addresses s v
step-IsValid c (updates now address hf debt collateral) s v =
    update_hf-IsValid c now address hf debt collateral s v
step-IsValid c prunes s v = prune_loop-IsValid c (keys s.candidates) s v
step-IsValid c (removes address) s v = delete-IsValid c (to_lower_case address) s v
step-IsValid c clears s v = record { distinct = tt; kept = tt }
step-IsValid c indexes s v = record { distinct = v.distinct; kept = v.kept }
step-IsValid c provides s v = record { distinct = v.distinct; kept = v.kept }

-- From a valid set, after any calls, every user stands once, under its own address in lower case, and has
-- a debt that reaches the minimum or is 0, which is that of a user not yet checked.
pub run-step-IsValid :
    (c : Settings) (calls : List Call) (s : ActiveRiskSet) → IsValid c s → IsValid c (run c calls s)
unfolding run
run-step-IsValid c [] s v = v
run-step-IsValid c (call ∷ calls) s v =
    run-step-IsValid c calls (step c call s) (step-IsValid c call s v)
