-- ===== src/JsMap/Evict.antt =====
-- The loop that looks for the entry to evict, and maps that are kept within a size by it.
use liquid_bot.Prelude.{
  ℕ, ◌<◌, ◌≡◌, refl, ◌∙◌, ◌⊎◌, inl, inr, Bool, true, false, Option, none, some, [], ◌∷◌, arith, ltb,
  if◌then◌else◌, Eq, All, Bool-cases,
}
use liquid_bot.JsMap.{JsMap, size, values, get, has, Distinct}
use liquid_bot.JsMap.Laws.{get-has}

-- `over new best`: the loop replaces the best entry so far by the new one. The first entry always
-- replaces the initial `null`, `-Infinity` or `Infinity`.
module _ {ℓ κ} {K : Type ℓ} {V : Type κ} ⦃e : Eq K⦄ (over : ℕ → ℕ → Bool) (rank : V → ℕ) where
  unfoldable pub better : K → V → Option (K × ℕ) → Option (K × ℕ)
  better k v none = some (k, rank v)
  better k v (some (j, r)) = if over (rank v) r then some (k, rank v) else some (j, r)

  unfoldable pub extreme : Option (K × ℕ) → JsMap K V → Option (K × ℕ)
  unfolding better
  extreme best [] = best
  extreme best ((k, v) ∷ m) = extreme (better k v best) m

  first_entry : (i : K) (w : V) (m : JsMap K V) {k : K} → i ≡ k → get k ((i, w) ∷ m) ≡ some w
  unfolding get
  first_entry i w m {k} h = ground (arith, e.beq_iff i k)

  get_tail :
      (i : K) (w : V) (m : JsMap K V) (k : K) {v : V}
      → has i m ≡ false
      → get k m ≡ some v
      → get k ((i, w) ∷ m) ≡ some v
  unfolding get
  get_tail i w m k h g = ground (arith, e.beq_iff i k, get-has i m)

  -- The best entry is the initial one, or stands in the map.
  extreme-get :
      (j : K) (s : ℕ) (m : JsMap K V) {k : K} {r : ℕ}
      → Distinct m
      → extreme (some (j, s)) m ≡ some (k, r)
      → ((j ≡ k) × (s ≡ r)) ⊎ ((v : V) × (get k m ≡ some v) × (rank v ≡ r))
  unfolding extreme
  extreme-get j s [] d h = inl (ground arith, ground arith)
  extreme-get j s ((i, w) ∷ m) {k} d h = elim (Bool-cases (over (rank w) s)) [
    | inl t ↦ elim (extreme-get i (rank w) m d.1 (rw (t, extreme) at h)) [
      | inl same ↦ inr (w, first_entry i w m same.0, same.1)
      | inr (v, g, q) ↦ inr (v, get_tail i w m k d.0 g, q)
    ]
    | inr f ↦ elim (extreme-get j s m d.1 (rw (f, extreme) at h)) [
      | inl same ↦ inl same
      | inr (v, g, q) ↦ inr (v, get_tail i w m k d.0 g, q)
    ]
  ]

  extreme-some :
      (j : K) (s : ℕ) (m : JsMap K V) → (k : K) × (r : ℕ) × (extreme (some (j, s)) m ≡ some (k, r))
  unfolding extreme
  extreme-some j s [] = (j, s, refl)
  extreme-some j s ((i, w) ∷ m) = elim (Bool-cases (over (rank w) s)) [
    | inl t ↦ rw (t, extreme) (extreme-some i (rank w) m)
    | inr f ↦ rw (f, extreme) (extreme-some j s m)
  ]

  -- In a map that is not empty, an entry of the map is found.
  pub extreme-found :
      (m : JsMap K V)
      → Distinct m
      → 0 < size m
      → (k : K) × (v : V) × (extreme none m ≡ some (k, rank v)) × (get k m ≡ some v)
  unfolding extreme
  extreme-found [] d h = absurd (omega arith)
  extreme-found ((i, w) ∷ m) d h =
      let (k, r, x) = extreme-some i (rank w) m in
      elim (extreme-get i (rank w) m d.1 x) [
        | inl same ↦ (i, w, x ∙ ground arith, first_entry i w m refl)
        | inr (v, g, q) ↦ (k, v, x ∙ ground arith, get_tail i w m k d.0 g)
      ]

-- With a strict weak order for `over`, no entry is over the one that is found.
module _ {ℓ κ} {K : Type ℓ} {V : Type κ} ⦃e : Eq K⦄ (over : ℕ → ℕ → Bool) (rank : V → ℕ)
    (irrefl : (a : ℕ) → over a a ≡ false)
    (trans : (a b c : ℕ) → over a b ≡ true → over b c ≡ true → over a c ≡ true)
    (chain : (a b c : ℕ) → over a b ≡ false → over b c ≡ false → over a c ≡ false) where
  extreme-bound_from :
      (j : K) (s : ℕ) (m : JsMap K V) {k : K} {r : ℕ}
      → extreme over rank (some (j, s)) m ≡ some (k, r)
      → (over s r ≡ false) × All (λ v. over (rank v) r ≡ false) (values m)
  unfolding extreme
  extreme-bound_from j s [] {r = r} h = (ground (arith, irrefl s), tt)
  extreme-bound_from j s ((i, w) ∷ m) {r = r} h = elim (Bool-cases (over (rank w) s)) [
    | inl t ↦
        let (low, rest) = extreme-bound_from i (rank w) m (rw (t, extreme) at h) in
        (ground (arith, trans (rank w) s r t), (low, rest))
    | inr f ↦
        let (low, rest) = extreme-bound_from j s m (rw (f, extreme) at h) in
        (low, (chain (rank w) s r f low, rest))
  ]

  pub extreme-bound :
      (m : JsMap K V) {k : K} {r : ℕ}
      → extreme over rank none m ≡ some (k, r)
      → All (λ v. over (rank v) r ≡ false) (values m)
  unfolding extreme
  extreme-bound [] h = tt
  extreme-bound ((i, w) ∷ m) h = extreme-bound_from i (rank w) m h

-- The two comparisons of the sources: `new > best` and `new < best`.
abbrev pub higher : ℕ → ℕ → Bool
higher a b = ltb b a

abbrev pub lower : ℕ → ℕ → Bool
lower a b = ltb a b

pub ltb_irrefl : (a : ℕ) → ltb a a ≡ false
ltb_irrefl a = ground arith

pub higher_trans : (a b c : ℕ) → higher a b ≡ true → higher b c ≡ true → higher a c ≡ true
higher_trans a b c h g = ground arith

pub higher_chain : (a b c : ℕ) → higher a b ≡ false → higher b c ≡ false → higher a c ≡ false
higher_chain a b c h g = ground arith

pub lower_trans : (a b c : ℕ) → lower a b ≡ true → lower b c ≡ true → lower a c ≡ true
lower_trans a b c h g = ground arith

pub lower_chain : (a b c : ℕ) → lower a b ≡ false → lower b c ≡ false → lower a c ≡ false
lower_chain a b c h g = ground arith
