-- ===== src/JsMap/Sets.antt =====
-- Sets, by what is in them.
use liquid_bot.Prelude.{◌≡◌, refl, ap, false, ◌||◌, List, [], ◌∷◌, arith, Eq}
use liquid_bot.JsMap.{JsMap, JsSet, keys, size, has, add, add_all, set_of, includes}
use liquid_bot.JsMap.Laws.{has-set}

module _ {ℓ} {K : Type ℓ} ⦃e : Eq K⦄ where
  pub has-add_all :
      (k : K) (ks : List K) (s : JsSet K) → has k (add_all ks s) ≡ (includes k ks || has k s)
  unfolding add_all includes
  has-add_all k [] s = refl
  has-add_all k (j ∷ ks) s = ground (arith, has-add_all k ks (add j s), has-set j k tt s)

  pub has-set_of : (k : K) (ks : List K) → has k (set_of ks) ≡ includes k ks
  unfolding has
  has-set_of k ks = ground (arith, has-add_all k ks [])

pub has-size_zero {ℓ κ} :
    {K : Type ℓ} {V : Type κ} ⦃e : Eq K⦄ (k : K) (m : JsMap K V) → size m ≡ 0 → has k m ≡ false
unfolding has
has-size_zero k [] h = refl
has-size_zero k (x ∷ m) h = absurd (omega (arith, h))

pub includes-keys {ℓ κ} :
    {K : Type ℓ} {V : Type κ} ⦃e : Eq K⦄ (k : K) (m : JsMap K V) → includes k (keys m) ≡ has k m
unfolding includes has
includes-keys k [] = refl
includes-keys ⦃e⦄ k (x ∷ m) = ap (λ b. e.beq x.0 k || b) (includes-keys k m)
