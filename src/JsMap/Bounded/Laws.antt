-- ===== src/JsMap/Bounded/Laws.antt =====
-- What a bounded insertion does to the size and to the other entries.
use mathlib.Core.Path.{subst}
use native.Mathlib.Decide.{dec_lt}
use liquid_bot.Prelude.{
  ℕ, ◌+◌, ◌≤◌, ◌<◌, ◌≡◌, refl, ap, sym, ◌∙◌, ◌⊎◌, inl, inr, Bool, true, false, some, [], ◌∷◌, arith,
  if◌then◌else◌, Eq, All, Bool-cases, max, le→leb,
}
use liquid_bot.JsMap.{JsMap, size, values, get, has, set, delete, Distinct}
use liquid_bot.JsMap.Entries.{All-set, All-delete, All-get}
use liquid_bot.JsMap.Evict.{extreme, extreme-found, extreme-bound}
use liquid_bot.JsMap.Bounded.{evict, make_room, bounded_set, make_room-cases}
use liquid_bot.JsMap.Laws.{
  get-set, get-delete, has-delete, has-set, size-set, size-delete-lt, Distinct-set, Distinct-delete,
  get-some-has,
}

module _ {ℓ κ} {K : Type ℓ} {V : Type κ} ⦃e : Eq K⦄ (over : ℕ → ℕ → Bool) (rank : V → ℕ)
    (truthy : K → Bool) where
  pub bounded_set-Distinct :
      (limit : ℕ) (k : K) (v : V) (m : JsMap K V)
      → Distinct m
      → Distinct (bounded_set over rank truthy limit k v m)
  unfolding bounded_set
  bounded_set-Distinct limit k v m d =
      Distinct-set k v _
        (make_room-cases over rank truthy Distinct limit k m d (λ j. Distinct-delete j m d))

  pub bounded_set-All {μ} :
      (P : K × V → Type μ) (limit : ℕ) (k : K) (v : V) (m : JsMap K V)
      → P (k, v)
      → All P m
      → All P (bounded_set over rank truthy limit k v m)
  unfolding bounded_set
  bounded_set-All P limit k v m p h =
      All-set P k v _ p
        (make_room-cases over rank truthy (All P) limit k m h (λ j. All-delete P j m h))

  pub get-bounded_set_self :
      (limit : ℕ) (k : K) (v : V) (m : JsMap K V)
      → get k (bounded_set over rank truthy limit k v m) ≡ some v
  unfolding bounded_set
  get-bounded_set_self limit k v m =
      ground (arith, get-set k k v (make_room over rank truthy limit k m), e.beq_iff k k)

  -- What another key has then, it had before.
  pub get-bounded_set_back :
      (limit : ℕ) (k j : K) (v w : V) (m : JsMap K V)
      → e.beq k j ≡ false
      → get j (bounded_set over rank truthy limit k v m) ≡ some w
      → get j m ≡ some w
  unfolding bounded_set
  get-bounded_set_back limit k j v w m ne h =
      make_room-cases over rank truthy (λ r. get j r ≡ some w → get j m ≡ some w) limit k m (λ g. g)
        (λ i g. ground (arith, get-delete i j m, g))
        (sym (
            get-set k j v (make_room over rank truthy limit k m)
            ∙ ap (λ b. if b then some v else get j (make_room over rank truthy limit k m)) ne)
          ∙ h)

  -- No other key comes in.
  pub has-bounded_set_ne :
      (limit : ℕ) (k j : K) (v : V) (m : JsMap K V)
      → e.beq k j ≡ false
      → has j m ≡ false
      → has j (bounded_set over rank truthy limit k v m) ≡ false
  unfolding bounded_set
  has-bounded_set_ne limit k j v m ne h =
      rw (has-set k j v (make_room over rank truthy limit k m)) (
        rw (ne, if◌then◌else◌)
          (make_room-cases over rank truthy (λ r. has j r ≡ false) limit k m h
            (λ i. rw (has-delete i j m) (ground arith))))

  -- Every key found is one that the eviction deletes.
  abbrev pub AllTruthy : JsMap K V → Type 0
  AllTruthy m = All (λ en. truthy en.0 ≡ true) m

  -- No entry is over the one of `j`.
  abbrev pub IsExtreme : K → JsMap K V → Type κ
  IsExtreme j m =
      (v : V) × (get j m ≡ some v) × All (λ w. over (rank w) (rank v) ≡ false) (values m)

module _ {ℓ κ} {K : Type ℓ} {V : Type κ} ⦃e : Eq K⦄ (over : ℕ → ℕ → Bool) (rank : V → ℕ)
    (truthy : K → Bool) (irrefl : (a : ℕ) → over a a ≡ false)
    (trans : (a b c : ℕ) → over a b ≡ true → over b c ≡ true → over a c ≡ true)
    (chain : (a b c : ℕ) → over a b ≡ false → over b c ≡ false → over a c ≡ false) where
  evict-delete :
      (m : JsMap K V)
      → Distinct m
      → AllTruthy over rank truthy m
      → 0 < size m
      → (j : K) × (evict over rank truthy m ≡ delete j m) × IsExtreme over rank truthy j m
  unfolding evict
  evict-delete m d t s =
      let (j, v, x, g) = extreme-found over rank m d s in
      let yes' : truthy j ≡ true = All-get (λ en. truthy en.0 ≡ true) j m t g in
      (j, ground arith, (v, g, extreme-bound over rank irrefl trans chain m x))

  make_room-delete :
      (limit : ℕ) (k : K) (m : JsMap K V)
      → Distinct m
      → AllTruthy over rank truthy m
      → 0 < size m
      → limit ≤ size m
      → has k m ≡ false
      → (j : K) × (make_room over rank truthy limit k m ≡ delete j m)
        × IsExtreme over rank truthy j m
  unfolding make_room
  make_room-delete limit k m d t s full fresh =
      let (j, x, w) = evict-delete m d t s in (j, ground (arith, le→leb limit (size m)), w)

  make_room_same :
      (limit : ℕ) (k : K) (m : JsMap K V)
      → (size m < limit) ⊎ (has k m ≡ true)
      → make_room over rank truthy limit k m ≡ m
  unfolding make_room
  make_room_same limit k m h = ground arith

  make_room-nil : (limit : ℕ) (k : K) → make_room over rank truthy limit k [] ≡ []
  unfolding make_room evict extreme
  make_room-nil limit k = ground arith

  size-set-le : (k : K) (v : V) (m : JsMap K V) → size (set k v m) ≤ size m + 1
  size-set-le k v m = ground (arith, size-set k v m)

  -- Either nothing had to go, or the map was full and lost its extreme entry to a new key.
  abbrev Room : ℕ → K → JsMap K V → JsMap K V → Type (ℓ ⊔ κ)
  Room limit k m r =
      ((r ≡ m) × ((size m < limit) ⊎ (has k m ≡ true) ⊎ (m ≡ [])))
      ⊎ ((limit ≤ size m)
          × (has k m ≡ false)
          × ((j : K) × (r ≡ delete j m) × IsExtreme over rank truthy j m))

  make_room-Room :
      (limit : ℕ) (k : K) (m : JsMap K V)
      → Distinct m
      → AllTruthy over rank truthy m
      → Room limit k m (make_room over rank truthy limit k m)
  make_room-Room limit k [] d t = inl (make_room-nil limit k, inr (inr refl))
  make_room-Room limit k (x ∷ m) d t = elim (Bool-cases (has k (x ∷ m))) [
    | inl old ↦ inl (make_room_same limit k _ (inr old), inr (inl old))
    | inr new ↦ elim (dec_lt (size (x ∷ m)) limit) [
      | yes room ↦ inl (make_room_same limit k _ (inl room), inl room)
      | no full ↦
          inr
            (omega arith, new, make_room-delete limit k (x ∷ m) d t (omega arith) (omega arith) new)
    ]
  ]

  -- The limit is kept, but that a map whose limit is 0 can hold one entry.
  pub bounded_set-size :
      (limit : ℕ) (k : K) (v : V) (m : JsMap K V)
      → Distinct m
      → AllTruthy over rank truthy m
      → size m ≤ max limit 1
      → size (bounded_set over rank truthy limit k v m) ≤ max limit 1
  unfolding bounded_set
  bounded_set-size limit k v m d t h = elim (make_room-Room limit k m d t) [
    | inl (same, inl room) ↦ rw same (omega (arith, size-set-le k v m))
    | inl (same, inr (inl old)) ↦ rw same (ground (arith, size-set k v m))
    | inl (same, inr (inr empty)) ↦
        rw same (omega (arith, size-set-le k v m, ap (λ z. size z) empty))
    | inr (full, new, (j, gone, (_, g, _))) ↦
        rw gone
          (omega (arith, size-set-le k v (delete j m), size-delete-lt j m (get-some-has j m g)))
  ]

  -- Every other entry stays as it is, but for the one that is evicted: that happens only to make
  -- room for a new key in a full map, and to an entry that no entry is over.
  pub get-bounded_set_ne :
      (limit : ℕ) (k j : K) (v : V) (m : JsMap K V)
      → Distinct m
      → AllTruthy over rank truthy m
      → e.beq k j ≡ false
      → (get j (bounded_set over rank truthy limit k v m) ≡ get j m)
        ⊎ ((limit ≤ size m) × (has k m ≡ false) × IsExtreme over rank truthy j m)
  unfolding bounded_set
  get-bounded_set_ne limit k j v m d t ne = elim (make_room-Room limit k m d t) [
    | inl (same, _) ↦ inl (rw same (ground (arith, get-set k j v m)))
    | inr (full, new, (i, gone, x)) ↦ elim (Bool-cases (e.beq i j)) [
      | inl this ↦
          inr (full, new, subst (λ z. IsExtreme over rank truthy z m) ((e.beq_iff i j).0 this) x)
      | inr other ↦ inl (rw gone (ground (arith, get-set k j v (delete i m), get-delete i j m)))
    ]
  ]
