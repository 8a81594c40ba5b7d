-- ===== src/HotSetTracker/Calls.antt =====
-- The results of the calls, and all histories of calls.
use mathlib.Core.List.{Perm}
use mathlib.Core.Path.{subst}
use liquid_bot.Prelude.{
  ℕ, ◌+◌, ◌≤◌, ◌≡◌, refl, Bool, false, Option, none, some, List, [], ◌∷◌, arith, All, take, drop,
  length, min, leb, if◌then◌else◌, Bool-cases, inl, inr, beq_self,
}
use liquid_bot.Prelude.Sort.{IsSorted, sort-IsSorted, sort-perm, take-before-drop}
use liquid_bot.Prelude.Text.{Text, text_key}
use liquid_bot.Addresses.{normalize_address}
use liquid_bot.JsMap
use liquid_bot.JsMap.{JsMap, values}
use liquid_bot.JsMap.Laws.{has-delete, get-some-has}
use liquid_bot.JsMap.Evict.{higher}
use liquid_bot.JsMap.Bounded.Laws.{get-bounded_set_self}
use liquid_bot.HotSetTracker.{
  HotSetEntry, HotSetTrackerConfig, SetCategory, hot, warm, cold, HotSetTracker, create, categorize,
  found, place, remove_from_all_sets, update, remove, after, get_hot_set, get_top_k, get_category,
  clear,
}
use liquid_bot.HotSetTracker.Invariant.{IsValid, place-IsValid, remove_from_all_sets-IsValid}

-- A fresh tracker exists exactly if the hot limit is below the warm one, and is valid.
abbrev pub IsCreated : HotSetTrackerConfig → Option HotSetTracker → Type 0
IsCreated c none = c.warm_set_hf_max ≤ c.hot_set_hf_max
IsCreated c (some t) = (c.hot_set_hf_max + 1 ≤ c.warm_set_hf_max) × IsValid t

pub create-IsCreated : (c : HotSetTrackerConfig) → IsCreated c (create c)
unfolding create JsMap.has
create-IsCreated c = elim (Bool-cases (leb c.warm_set_hf_max c.hot_set_hf_max)) [
  | inl y ↦ rw (y, create) ground arith
  | inr n ↦
      rw (n, create)
        (
          ground arith,
          record {
            hot_ok = record { distinct = tt; bounded = omega arith; placed = tt };
            warm_ok = record { distinct = tt; bounded = omega arith; placed = tt };
            disjoint = λ k h. refl;
          },
        )
]

-- The set in which a category's users stand.
abbrev pub tracked : SetCategory → Option SetCategory
tracked hot = some hot
tracked warm = some warm
tracked cold = none

absent-remove_from_all_sets :
    (k : Text) (t : HotSetTracker)
    → (JsMap.has k (remove_from_all_sets k t).hot_set ≡ false)
      × (JsMap.has k (remove_from_all_sets k t).warm_set ≡ false)
unfolding remove_from_all_sets
absent-remove_from_all_sets k t = (
  ground (arith, has-delete k k t.hot_set, beq_self k),
  ground (arith, has-delete k k t.warm_set, beq_self k),
)

place-has :
    (category : SetCategory) (entry : HotSetEntry) (t : HotSetTracker)
    → JsMap.has entry.address t.hot_set ≡ false
    → JsMap.has entry.address t.warm_set ≡ false
    → (if JsMap.has entry.address (place category entry t).hot_set
        then some hot
        else if JsMap.has entry.address (place category entry t).warm_set
        then some warm
        else none)
      ≡ tracked category
unfolding place
place-has hot entry t h w =
    rw
      (get-some-has entry.address _ (
        get-bounded_set_self higher (λ (e : HotSetEntry). e.hf) found t.config.max_hot_size
          entry.address entry t.hot_set))
      refl
place-has warm entry t h w = rw h (
    rw
      (get-some-has entry.address _ (
        get-bounded_set_self higher (λ (e : HotSetEntry). e.hf) found t.config.max_warm_size
          entry.address entry t.warm_set))
      refl)
place-has cold entry t h w = rw h (rw w refl)

-- After an update the user is found in the set of the category that the update returned, and in
-- none if that is the cold one, whatever was tracked of the user before.
pub update-get_category :
    (lowercase : Bool) (entry : HotSetEntry) (t : HotSetTracker)
    → get_category lowercase entry.address (update lowercase entry t).0
      ≡ tracked (update lowercase entry t).1
unfolding get_category update
update-get_category lowercase entry t =
    let k = normalize_address lowercase entry.address in
    place-has (categorize t.config entry.hf) (record entry { address = k })
      (remove_from_all_sets k t) (absent-remove_from_all_sets k t).0
      (absent-remove_from_all_sets k t).1

-- `getHotSet` lists the hot users, the lowest health factor first; `getTopK` is the front of that
-- list, and none of its users is above one that it leaves out.
pub get_top_k-lowest :
    (k : ℕ) (t : HotSetTracker)
    → IsSorted after (get_hot_set t)
      × Perm (get_hot_set t) (values t.hot_set)
      × (get_top_k k t ≡ take (min k (length (get_hot_set t))) (get_hot_set t))
      × All
          (λ x.
            All (λ y. after x y ≡ false) (drop (min k (length (get_hot_set t))) (get_hot_set t)))
          (get_top_k k t)
unfolding get_top_k get_hot_set
get_top_k-lowest k t =
    let sorted =
      sort-IsSorted after (λ a b h. ground arith) (λ a b c h g. ground arith) (values t.hot_set) in
    (
      sorted,
      sort-perm after (values t.hot_set),
      refl,
      take-before-drop after _ (get_hot_set t) sorted,
    )

pub data Call : Type 0 where
  updates : HotSetEntry → Call
  removes : Text → Call
  clears : Call

unfoldable pub step : Bool → Call → HotSetTracker → HotSetTracker
step lowercase (updates entry) t = (update lowercase entry t).0
step lowercase (removes address) t = remove lowercase address t
step lowercase clears t = clear t

unfoldable pub run : Bool → List Call → HotSetTracker → HotSetTracker
run lowercase [] t = t
run lowercase (call ∷ calls) t = run lowercase calls (step lowercase call t)

step-IsValid :
    (lowercase : Bool) (call : Call) (t : HotSetTracker)
    → IsValid t
    → IsValid (step lowercase call t)
unfolding step update remove clear JsMap.has
step-IsValid lowercase (updates entry) t v =
    let k = normalize_address lowercase entry.address in
    place-IsValid (categorize t.config entry.hf) (record entry { address = k })
      (remove_from_all_sets k t) refl (absent-remove_from_all_sets k t).0
      (absent-remove_from_all_sets k t).1 (remove_from_all_sets-IsValid k t v)
step-IsValid lowercase (removes address) t v = remove_from_all_sets-IsValid _ t v
step-IsValid lowercase clears t v = record {
  hot_ok = record { distinct = tt; bounded = omega arith; placed = tt };
  warm_ok = record { distinct = tt; bounded = omega arith; placed = tt };
  disjoint = λ k h. refl;
}

run-IsValid :
    (lowercase : Bool) (calls : List Call) (t : HotSetTracker)
    → IsValid t
    → IsValid (run lowercase calls t)
unfolding run
run-IsValid lowercase [] t v = v
run-IsValid lowercase (call ∷ calls) t v =
    run-IsValid lowercase calls (step lowercase call t) (step-IsValid lowercase call t v)

-- After any history of calls on a tracker that was constructed, no user is in both sets or twice
-- in one, the size limits are kept (a limit of 0 lets one entry in), and every entry stands under
-- its address and has the health factor of its set.
pub create-run-IsValid :
    (lowercase : Bool) (c : HotSetTrackerConfig) (calls : List Call) {t : HotSetTracker}
    → create c ≡ some t
    → IsValid (run lowercase calls t)
create-run-IsValid lowercase c calls {t} made =
    run-IsValid lowercase calls t (subst (IsCreated c) made (create-IsCreated c)).1
