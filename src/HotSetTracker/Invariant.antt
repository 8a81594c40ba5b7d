-- ===== src/HotSetTracker/Invariant.antt =====
-- What holds of the two sets after any calls.
use mathlib.Core.Path.{subst}
use liquid_bot.Prelude.{
  ℕ, ◌≤◌, ◌≡◌, refl, true, false, [], ◌∷◌, arith, All, max, Bool-cases, inl, inr,
}
use liquid_bot.Prelude.Text.{Text, text_key}
use liquid_bot.JsMap
use liquid_bot.JsMap.{JsMap, Distinct}
use liquid_bot.JsMap.Laws.{Distinct-delete, size-delete-le, has-delete}
use liquid_bot.JsMap.Entries.{All-delete}
use liquid_bot.JsMap.Evict.{higher, ltb_irrefl, higher_trans, higher_chain}
use liquid_bot.JsMap.Bounded.{bounded_set}
use liquid_bot.JsMap.Bounded.Laws.{
  bounded_set-Distinct, bounded_set-All, bounded_set-size, has-bounded_set_ne, AllTruthy,
}
use liquid_bot.HotSetTracker.{
  HotSetEntry, HotSetTrackerConfig, SetCategory, hot, warm, cold, HotSetTracker, categorize, found,
  place, remove_from_all_sets,
}

-- An entry that stands under its address and has the health factor of the set.
abbrev pub IsPlaced : HotSetTrackerConfig → SetCategory → Text × HotSetEntry → Type 0
IsPlaced c category entry = (entry.0 ≡ entry.1.address) × (categorize c entry.1.hf ≡ category)

-- One set, with its size limit.
pub record IsTier (c : HotSetTrackerConfig) (category : SetCategory) (limit : ℕ)
    (m : JsMap Text HotSetEntry) : Type 0 where
  pub distinct : Distinct m
  pub bounded : JsMap.size m ≤ max limit 1
  pub placed : All (IsPlaced c category) m

-- No address is in both sets.
abbrev pub AreDisjoint : JsMap Text HotSetEntry → JsMap Text HotSetEntry → Type 0
AreDisjoint m n = (k : Text) → JsMap.has k m ≡ true → JsMap.has k n ≡ false

pub record IsValid (t : HotSetTracker) : Type 0 where
  pub hot_ok : IsTier t.config hot t.config.max_hot_size t.hot_set
  pub warm_ok : IsTier t.config warm t.config.max_warm_size t.warm_set
  pub disjoint : AreDisjoint t.hot_set t.warm_set

pub AllTruthy-found :
    (m : JsMap Text HotSetEntry) → AllTruthy higher (λ (e : HotSetEntry). e.hf) found m
AllTruthy-found [] = tt
AllTruthy-found (x ∷ m) = (refl, AllTruthy-found m)

bounded_set-IsTier :
    (c : HotSetTrackerConfig) (category : SetCategory) (limit : ℕ) (entry : HotSetEntry)
    (m : JsMap Text HotSetEntry)
    → categorize c entry.hf ≡ category
    → IsTier c category limit m
    → IsTier c category limit (bounded_set higher (λ e. e.hf) found limit entry.address entry m)
bounded_set-IsTier c category limit entry m ok v = record {
  distinct = bounded_set-Distinct higher _ found limit _ entry m v.distinct;
  bounded =
      bounded_set-size higher (λ (e : HotSetEntry). e.hf) found ltb_irrefl higher_trans higher_chain
        limit _ entry m v.distinct (AllTruthy-found m) v.bounded;
  placed = bounded_set-All higher _ found (IsPlaced c category) limit _ entry m (refl, ok) v.placed;
}

delete-IsTier :
    (c : HotSetTrackerConfig) (category : SetCategory) (limit : ℕ) (k : Text)
    (m : JsMap Text HotSetEntry)
    → IsTier c category limit m
    → IsTier c category limit (JsMap.delete k m)
delete-IsTier c category limit k m v = record {
  distinct = Distinct-delete k m v.distinct;
  bounded = omega (arith, size-delete-le k m, v.bounded);
  placed = All-delete (IsPlaced c category) k m v.placed;
}

-- Growing a set by an address that the other set lacks.
bounded_set-AreDisjoint :
    (limit : ℕ) (k : Text) (entry : HotSetEntry) (m n : JsMap Text HotSetEntry)
    → JsMap.has k n ≡ false
    → AreDisjoint m n
    → AreDisjoint (bounded_set higher (λ e. e.hf) found limit k entry m) n
bounded_set-AreDisjoint limit k entry m n absent d j h = elim (Bool-cases (text_key.beq k j)) [
  | inl same ↦ subst (λ i. JsMap.has i n ≡ false) ((text_key.beq_iff k j).0 same) absent
  | inr ne ↦ elim (Bool-cases (JsMap.has j m)) [
    | inl y ↦ d j y
    | inr z ↦ absurd (
        ground (
          arith,
          has-bounded_set_ne higher (λ (e : HotSetEntry). e.hf) found limit k j entry m ne z,
        ))
  ]
]

AreDisjoint-sym : (m n : JsMap Text HotSetEntry) → AreDisjoint m n → AreDisjoint n m
AreDisjoint-sym m n d k h = elim (Bool-cases (JsMap.has k m)) [
  | inl y ↦ absurd (ground (arith, d k y))
  | inr z ↦ z
]

pub remove_from_all_sets-IsValid :
    (address : Text) (t : HotSetTracker) → IsValid t → IsValid (remove_from_all_sets address t)
unfolding remove_from_all_sets
remove_from_all_sets-IsValid address t v = record {
  hot_ok = delete-IsTier _ hot _ address t.hot_set v.hot_ok;
  warm_ok = delete-IsTier _ warm _ address t.warm_set v.warm_ok;
  disjoint = λ k h.
      ground (arith, has-delete address k t.hot_set, has-delete address k t.warm_set, v.disjoint k);
}

pub place-IsValid :
    (category : SetCategory) (entry : HotSetEntry) (t : HotSetTracker)
    → categorize t.config entry.hf ≡ category
    → JsMap.has entry.address t.hot_set ≡ false
    → JsMap.has entry.address t.warm_set ≡ false
    → IsValid t
    → IsValid (place category entry t)
unfolding place
place-IsValid hot entry t ok h w v = record {
  hot_ok = bounded_set-IsTier _ hot _ entry t.hot_set ok v.hot_ok;
  warm_ok = v.warm_ok;
  disjoint = bounded_set-AreDisjoint _ _ entry t.hot_set t.warm_set w v.disjoint;
}
place-IsValid warm entry t ok h w v = record {
  hot_ok = v.hot_ok;
  warm_ok = bounded_set-IsTier _ warm _ entry t.warm_set ok v.warm_ok;
  disjoint = AreDisjoint-sym _ t.hot_set (
      bounded_set-AreDisjoint _ _ entry t.warm_set t.hot_set h
        (AreDisjoint-sym t.hot_set t.warm_set v.disjoint));
}
place-IsValid cold entry t ok h w v = v
