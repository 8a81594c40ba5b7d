-- ===== src/JsMap/Entries.antt =====
-- Properties of all entries of a `Map`.
use mathlib.Core.Path.{subst}
use liquid_bot.Prelude.{◌≡◌, some, [], ◌∷◌, arith, Eq, All, Bool-cases, inl, inr}
use liquid_bot.JsMap.{JsMap, get, set, delete}

module _ {ℓ κ μ} {K : Type ℓ} {V : Type κ} ⦃e : Eq K⦄ (P : K × V → Type μ) where
  pub All-set : (k : K) (v : V) (m : JsMap K V) → P (k, v) → All P m → All P (set k v m)
  unfolding set
  All-set k v [] p h = (p, tt)
  All-set k v ((j, w) ∷ m) p h = elim (Bool-cases (e.beq j k)) [
    | inl t ↦ rw (t, set) (rw ((e.beq_iff j k).0 t) p, h.1)
    | inr f ↦ rw (f, set) (h.0, All-set k v m p h.1)
  ]

  pub All-delete : (k : K) (m : JsMap K V) → All P m → All P (delete k m)
  unfolding delete
  All-delete k [] h = tt
  All-delete k ((j, w) ∷ m) h = elim (Bool-cases (e.beq j k)) [
    | inl t ↦ rw (t, delete) (All-delete k m h.1)
    | inr f ↦ rw (f, delete) (h.0, All-delete k m h.1)
  ]

  -- What holds of all entries holds of the one that is read.
  pub All-get : (k : K) (m : JsMap K V) {v : V} → All P m → get k m ≡ some v → P (k, v)
  unfolding get
  All-get k [] h g = cc
  All-get k ((j, w) ∷ m) {v} h g = elim (Bool-cases (e.beq j k)) [
    | inl t ↦
        let same : w ≡ v = ground arith in
        subst (λ z. P (k, z)) same (subst (λ z. P (z, w)) ((e.beq_iff j k).0 t) h.0)
    | inr f ↦ All-get k m h.1 (ground arith)
  ]
