-- ===== src/ActiveRiskSet/Pruning.antt =====
-- What pruning removes and what it keeps.
use liquid_bot.Prelude.{
  ℕ, ◌⊎◌, ap, ◌+◌, ◌≤◌, ◌≡◌, refl, ◌∙◌, Bool, true, false, ◌&&◌, ◌||◌, Option, none, some, List, [],
  ◌∷◌, arith, All, if◌then◌else◌, Bool-cases, Option-cases, inl, inr,
}
use liquid_bot.Prelude.Text.{Text, text_key, to_lower_case}
use liquid_bot.JsMap
use liquid_bot.JsMap.{JsMap, keys, includes, Distinct}
use liquid_bot.JsMap.Laws.{get-delete, get-some-has, size-delete, Distinct-delete}
use liquid_bot.JsMap.Sets.{includes-keys}
use liquid_bot.ActiveRiskSet.{
  HealthFactor, finite, infinity, CandidateUser, Settings, ActiveRiskSet, get_min_debt_threshold,
  get, is_below, is_above, is_removable, should_remove, removal_hf_margin, prune_one, prune_loop,
  prune_healthy_users, size,
}

removable_same :
    (c : Settings) (k j : Text) (m : JsMap Text CandidateUser)
    → text_key.beq k j ≡ true
    → is_removable c (JsMap.get k m) ≡ is_removable c (JsMap.get j m)
removable_same c k j m h = ap (λ i. is_removable c (JsMap.get i m)) ((text_key.beq_iff k j).0 h)

should_remove_key :
    (c : Settings) (k : Text) (s : ActiveRiskSet)
    → to_lower_case k ≡ k
    → should_remove c k s ≡ is_removable c (JsMap.get k s.candidates)
unfolding should_remove get
should_remove_key c k s low = ap (λ i. is_removable c (JsMap.get i s.candidates)) low

abbrev pruned : Settings → Bool → Option CandidateUser → Option CandidateUser
pruned c visited o = if visited && is_removable c o then none else o

-- What a round of pruning leaves of each candidate.
get-prune_one :
    (c : Settings) (k j : Text) (s : ActiveRiskSet)
    → to_lower_case k ≡ k
    → JsMap.get j (prune_one c k s).0.candidates
      ≡ pruned c (text_key.beq k j) (JsMap.get j s.candidates)
unfolding prune_one
get-prune_one c k j s low = elim (Bool-cases (should_remove c k s)) [
  | inl y ↦
      rw (y, if◌then◌else◌)
        (ground (
          arith,
          get-delete k j s.candidates,
          removable_same c k j s.candidates,
          should_remove_key c k s low,
        ))
  | inr n ↦
      rw (n, if◌then◌else◌)
        (ground (arith, removable_same c k j s.candidates, should_remove_key c k s low))
]

get-prune_loop :
    (c : Settings) (ks : List Text) (j : Text) (s : ActiveRiskSet)
    → All (λ k. to_lower_case k ≡ k) ks
    → JsMap.get j (prune_loop c ks s).0.candidates
      ≡ pruned c (includes j ks) (JsMap.get j s.candidates)
unfolding prune_loop includes is_removable
get-prune_loop c [] j s low = refl
get-prune_loop c (k ∷ ks) j s low =
    get-prune_loop c ks j (prune_one c k s).0 low.1
    ∙ ap (pruned c (includes j ks)) (get-prune_one c k j s low.0)
    ∙ twice (text_key.beq k j) (JsMap.get j s.candidates)
  where
    twice :
        (b : Bool) (o : Option CandidateUser)
        → pruned c (includes j ks) (pruned c b o) ≡ pruned c (b || includes j ks) o
    twice b o = elim (Bool-cases (is_removable c o)) [
      | inl y ↦ elim (Bool-cases b) [
        | inl t ↦ rw (t, if◌then◌else◌) (rw (y, if◌then◌else◌) ground arith)
        | inr f ↦ rw (f, if◌then◌else◌) refl
      ]
      | inr n ↦ ground arith
    ]

-- In a set with keys in lower case, pruning removes exactly the users that should be removed, and
-- leaves the others as they are.
pub get-prune_healthy_users :
    (c : Settings) (s : ActiveRiskSet) (address : Text)
    → All (λ k. to_lower_case k ≡ k) (keys s.candidates)
    → get address (prune_healthy_users c s).0
      ≡ (if should_remove c address s then none else get address s)
unfolding prune_healthy_users get should_remove
get-prune_healthy_users c s address low =
    let k = to_lower_case address in
    get-prune_loop c (keys s.candidates) k s low ∙ elim (Option-cases (JsMap.get k s.candidates)) [
      | inl n ↦ rw n (ground arith)
      | inr (u, x) ↦ ground (arith, includes-keys k s.candidates, get-some-has k s.candidates x)
    ]

HealthFactor-cases : (h : HealthFactor) → (h ≡ infinity) ⊎ ((n : ℕ) × (h ≡ finite n))
HealthFactor-cases infinity = inl refl
HealthFactor-cases (finite n) = inr (n, refl)

urgent-is_removable :
    (c : Settings) (u : CandidateUser)
    → is_below u.health_factor c.hf_threshold_start ≡ true
    → get_min_debt_threshold c ≤ u.last_debt_usd_1e18
    → c.hf_threshold_start ≤ removal_hf_margin
    → is_removable c (some u) ≡ false
unfolding is_removable
urgent-is_removable c u below large threshold = elim (HealthFactor-cases u.health_factor) [
  | inl i ↦ absurd (ground (arith, ap (λ h. is_below h c.hf_threshold_start) i))
  | inr (h, x) ↦
      ground (
        arith,
        ap (λ h. is_below h c.hf_threshold_start) x,
        ap (λ h. is_above h removal_hf_margin) x,
      )
]

-- In a set with keys in lower case, a user below the threshold with the minimum debt stays when
-- the set is pruned, if the threshold is not above the margin for the removal.
pub prune-urgent :
    (c : Settings) (s : ActiveRiskSet) (address : Text) {u : CandidateUser}
    → All (λ k. to_lower_case k ≡ k) (keys s.candidates)
    → get address s ≡ some u
    → is_below u.health_factor c.hf_threshold_start ≡ true
    → get_min_debt_threshold c ≤ u.last_debt_usd_1e18
    → c.hf_threshold_start ≤ removal_hf_margin
    → get address (prune_healthy_users c s).0 ≡ some u
unfolding should_remove
prune-urgent c s address {u} low found below large threshold =
    get-prune_healthy_users c s address low
    ∙ ap (λ o. if is_removable c o then none else o) found
    ∙ ap (λ b. if b then none else some u) (urgent-is_removable c u below large threshold)

-- The rounds of pruning count what they delete.
size-prune_one :
    (c : Settings) (k : Text) (s : ActiveRiskSet)
    → to_lower_case k ≡ k
    → Distinct s.candidates
    → (prune_one c k s).1 + JsMap.size (prune_one c k s).0.candidates ≡ JsMap.size s.candidates
unfolding prune_one is_removable
size-prune_one c k s low d = elim (Bool-cases (should_remove c k s)) [
  | inr n ↦ rw (n, if◌then◌else◌) (omega arith)
  | inl y ↦ elim (Option-cases (JsMap.get k s.candidates)) [
    | inl none_there ↦
        absurd (ground (arith, y, should_remove_key c k s low, ap (is_removable c) none_there))
    | inr (u, x) ↦
        rw (y, if◌then◌else◌)
          (omega (arith, size-delete k s.candidates d (get-some-has k s.candidates x)))
  ]
]

prune_one-Distinct :
    (c : Settings) (k : Text) (s : ActiveRiskSet)
    → Distinct s.candidates
    → Distinct (prune_one c k s).0.candidates
unfolding prune_one
prune_one-Distinct c k s d = elim (Bool-cases (should_remove c k s)) [
  | inl y ↦ rw (y, if◌then◌else◌) (Distinct-delete k s.candidates d)
  | inr n ↦ rw (n, if◌then◌else◌) d
]

size-prune_loop :
    (c : Settings) (ks : List Text) (s : ActiveRiskSet)
    → All (λ k. to_lower_case k ≡ k) ks
    → Distinct s.candidates
    → (prune_loop c ks s).1 + JsMap.size (prune_loop c ks s).0.candidates ≡ JsMap.size s.candidates
unfolding prune_loop
size-prune_loop c [] s low d = omega arith
size-prune_loop c (k ∷ ks) s low d = omega (
  arith,
  size-prune_one c k s low.0 d,
  size-prune_loop c ks (prune_one c k s).0 low.1 (prune_one-Distinct c k s d),
)

-- In a set with keys in lower case and none twice, `pruneHealthyUsers` returns the number of users
-- that it removed.
pub size-prune_healthy_users :
    (c : Settings) (s : ActiveRiskSet)
    → All (λ k. to_lower_case k ≡ k) (keys s.candidates)
    → Distinct s.candidates
    → (prune_healthy_users c s).1 + size (prune_healthy_users c s).0 ≡ size s
unfolding prune_healthy_users size
size-prune_healthy_users c s low d = size-prune_loop c (keys s.candidates) s low d
