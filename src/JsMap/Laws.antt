-- ===== src/JsMap/Laws.antt =====
-- What the operations of a `Map` do to each other.
use mathlib.Core.Path.{subst}
use liquid_bot.Prelude.{
  ◌+◌, ◌≤◌, ◌≡◌, refl, ap, true, false, none, some, [], ◌∷◌, arith, if◌then◌else◌, Eq, All, In,
  here, there, cons_mono, Bool-cases, inl, inr,
}
use liquid_bot.JsMap.{JsMap, size, keys, get, has, set, delete, Distinct}

module _ {ℓ κ} {K : Type ℓ} {V : Type κ} ⦃e : Eq K⦄ where
  pub get-set :
      (k j : K) (v : V) (m : JsMap K V)
      → get j (set k v m) ≡ (if e.beq k j then some v else get j m)
  unfolding get set
  get-set k j v [] = refl
  get-set k j v ((i, w) ∷ m) =
      ground (arith, e.beq_iff k j, e.beq_iff i k, e.beq_iff i j, get-set k j v m)

  pub get-delete :
      (k j : K) (m : JsMap K V) → get j (delete k m) ≡ (if e.beq k j then none else get j m)
  unfolding get delete
  get-delete k j [] = ground arith
  get-delete k j ((i, w) ∷ m) =
      ground (arith, e.beq_iff k j, e.beq_iff i k, e.beq_iff i j, get-delete k j m)

  pub has-set :
      (k j : K) (v : V) (m : JsMap K V) → has j (set k v m) ≡ (if e.beq k j then true else has j m)
  unfolding has set
  has-set k j v [] = ground arith
  has-set k j v ((i, w) ∷ m) =
      ground (arith, e.beq_iff k j, e.beq_iff i k, e.beq_iff i j, has-set k j v m)

  pub has-delete :
      (k j : K) (m : JsMap K V) → has j (delete k m) ≡ (if e.beq k j then false else has j m)
  unfolding has delete
  has-delete k j [] = ground arith
  has-delete k j ((i, w) ∷ m) =
      ground (arith, e.beq_iff k j, e.beq_iff i k, e.beq_iff i j, has-delete k j m)

  -- A key is there exactly when it has a value.
  pub get-has : (k : K) (m : JsMap K V) → has k m ≡ false → get k m ≡ none
  unfolding get has
  get-has k [] h = refl
  get-has k ((i, w) ∷ m) h = ground (arith, get-has k m)

  pub has-get : (k : K) (m : JsMap K V) → get k m ≡ none → has k m ≡ false
  unfolding get has
  has-get k [] h = refl
  has-get k ((i, w) ∷ m) h = ground (arith, has-get k m)

  pub get-some-has : (k : K) (m : JsMap K V) {v : V} → get k m ≡ some v → has k m ≡ true
  unfolding get has
  get-some-has k [] h = cc
  get-some-has k ((i, w) ∷ m) {v} h = ground (arith, get-some-has k m {v = v})

  pub size-set :
      (k : K) (v : V) (m : JsMap K V) → size (set k v m) ≡ (if has k m then size m else size m + 1)
  unfolding has set
  size-set k v [] = refl
  size-set k v ((i, w) ∷ m) = ground (arith, size-set k v m)

  pub size-delete-le : (k : K) (m : JsMap K V) → size (delete k m) ≤ size m
  unfolding delete
  size-delete-le k [] = omega arith
  size-delete-le k ((i, w) ∷ m) = ground (arith, size-delete-le k m)

  pub size-delete-lt : (k : K) (m : JsMap K V) → has k m ≡ true → size (delete k m) + 1 ≤ size m
  unfolding delete has
  size-delete-lt k [] h = cc
  size-delete-lt k ((i, w) ∷ m) h = ground (arith, size-delete-lt k m, size-delete-le k m)

  pub delete_absent : (k : K) (m : JsMap K V) → has k m ≡ false → delete k m ≡ m
  unfolding delete has
  delete_absent k [] h = refl
  delete_absent k ((i, w) ∷ m) h = ground (arith, delete_absent k m)

  pub Distinct-set : (k : K) (v : V) (m : JsMap K V) → Distinct m → Distinct (set k v m)
  unfolding has set
  Distinct-set k v [] d = (refl, tt)
  Distinct-set k v ((i, w) ∷ m) d =
      ground (arith, has-set k i v m, e.beq_iff i k, e.beq_iff k i, Distinct-set k v m d.1)

  pub Distinct-delete : (k : K) (m : JsMap K V) → Distinct m → Distinct (delete k m)
  unfolding delete has
  Distinct-delete k [] d = tt
  Distinct-delete k ((i, w) ∷ m) d = ground (arith, has-delete k i m, Distinct-delete k m d.1)

  -- A property of all keys, when one more is set.
  pub keys-set {μ} :
      (P : K → Type μ) (k : K) (v : V) (m : JsMap K V)
      → P k
      → All P (keys m)
      → All P (keys (set k v m))
  unfolding set
  keys-set P k v [] h hs = (h, tt)
  keys-set P k v ((j, w) ∷ m) h hs = elim (Bool-cases (e.beq j k)) [
    | inl t ↦ rw (t, set) hs
    | inr f ↦ rw (f, set) (hs.0, keys-set P k v m h hs.1)
  ]

  pub In-keys-set_self : (k : K) (v : V) (m : JsMap K V) → In k (keys (set k v m))
  unfolding set
  In-keys-set_self k v [] = here refl
  In-keys-set_self k v ((j, w) ∷ m) = elim (Bool-cases (e.beq j k)) [
    | inl t ↦ rw (t, set) (here ((e.beq_iff j k).0 t))
    | inr f ↦ rw (f, set) (there (In-keys-set_self k v m))
  ]

  pub In-keys-set :
      {j : K} (k : K) (v : V) (m : JsMap K V) → In j (keys m) → In j (keys (set k v m))
  unfolding set
  In-keys-set k v [] h = there h
  In-keys-set k v ((i, w) ∷ m) h = elim (Bool-cases (e.beq i k)) [
    | inl t ↦ rw (t, set) h
    | inr f ↦ rw (f, set) (cons_mono (In-keys-set k v m) h)
  ]

  pub size-delete :
      (k : K) (m : JsMap K V) → Distinct m → has k m ≡ true → size (delete k m) + 1 ≡ size m
  unfolding delete has
  size-delete k [] d h = absurd cc
  size-delete k ((j, v) ∷ m) d h = elim (Bool-cases (e.beq j k)) [
    | inl y ↦
        rw (y, if◌then◌else◌)
          (omega (
            arith,
            ap size (delete_absent k m (subst (λ i. has i m ≡ false) ((e.beq_iff j k).0 y) d.0)),
          ))
    | inr n ↦ rw (n, if◌then◌else◌) (ground (arith, size-delete k m d.1))
  ]
