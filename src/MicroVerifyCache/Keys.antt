-- ===== src/MicroVerifyCache/Keys.antt =====
-- The keys of a user.
use liquid_bot.Prelude.{
  ap, ◌≡◌, refl, ◌∙◌, Bool, true, false, ◌&&◌, none, List, [], ◌∷◌, ◌++◌, arith, ◌==◌, All,
  if◌then◌else◌, Bool-cases, inl, inr,
}
use liquid_bot.Prelude.Text.{Text, text_eq, text_key}
use liquid_bot.JsMap
use liquid_bot.JsMap.{JsMap, keys, includes}
use liquid_bot.JsMap.Laws.{get-delete, get-has}
use liquid_bot.JsMap.Sets.{includes-keys}
use liquid_bot.MicroVerifyCache.{colon, starts_with, delete_picked}

-- Addresses have no colon.
abbrev pub HasNoColon : Text → Type 0
HasNoColon s = All (λ c. (c == colon) ≡ false) s

-- A key has the prefix of a user exactly if it is the user's.
pub starts_with-append :
    (u v tag : Text)
    → HasNoColon u
    → HasNoColon v
    → starts_with (v ++ (colon ∷ tag)) (u ++ (colon ∷ [])) ≡ text_eq u v
unfolding starts_with text_eq
starts_with-append [] [] tag hu hv = refl
starts_with-append [] (b ∷ v) tag hu hv = ground (arith, hv.0)
starts_with-append (c ∷ u) [] tag hu hv = ground (arith, hu.0)
starts_with-append (c ∷ u) (b ∷ v) tag hu hv = ground (arith, starts_with-append u v tag hu.1 hv.1)

pub get-delete_picked {ℓ} :
    {V : Type ℓ} (pick : Text → Bool) (ks : List Text) (j : Text) (m : JsMap Text V)
    → JsMap.get j (delete_picked pick ks m).0
      ≡ (if includes j ks && pick j then none else JsMap.get j m)
unfolding delete_picked includes
get-delete_picked pick [] j m = refl
get-delete_picked pick (k ∷ ks) j m = elim (Bool-cases (pick k)) [
  | inl y ↦
      rw (y, if◌then◌else◌)
        (get-delete_picked pick ks j (JsMap.delete k m) ∙ ground (arith, get-delete k j m, same))
  | inr n ↦ rw (n, if◌then◌else◌) (get-delete_picked pick ks j m ∙ ground (arith, same))
]
  where
    same : text_key.beq k j ≡ true → pick k ≡ pick j
    same h = ap pick ((text_key.beq_iff k j).0 h)

-- The loop over all keys.
pub get-delete_picked_all {ℓ} :
    {V : Type ℓ} (pick : Text → Bool) (j : Text) (m : JsMap Text V)
    → JsMap.get j (delete_picked pick (keys m) m).0 ≡ (if pick j then none else JsMap.get j m)
get-delete_picked_all pick j m =
    get-delete_picked pick (keys m) j m ∙ elim (Bool-cases (JsMap.has j m)) [
      | inl y ↦ ground (arith, includes-keys j m)
      | inr n ↦ ground (arith, includes-keys j m, get-has j m n)
    ]
