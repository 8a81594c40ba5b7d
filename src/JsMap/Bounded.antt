-- ===== src/JsMap/Bounded.antt =====
-- Maps that are kept within a size: a new key in a full map makes room first.
pub mod Laws
use liquid_bot.Prelude.{
  ℕ, ◌+◌, ◌≤◌, ◌<◌, ◌≡◌, refl, ◌∙◌, ◌⊎◌, inl, inr, Bool, true, false, not, ◌&&◌, Option, none, some,
  List, [], ◌∷◌, arith, leb, if◌then◌else◌, Eq, All, Bool-cases, Option-cases, max,
}
use liquid_bot.JsMap.{JsMap, size, values, get, has, set, delete, Distinct}
use liquid_bot.JsMap.Entries.{All-set, All-delete, All-get}
use liquid_bot.JsMap.Evict.{extreme, extreme-found, extreme-bound}
use liquid_bot.JsMap.Laws.{
  get-set, get-delete, has-delete, size-set, size-delete-lt, size-delete-le, Distinct-set,
  Distinct-delete, get-has,
}

module _ {ℓ κ} {K : Type ℓ} {V : Type κ} ⦃e : Eq K⦄ (over : ℕ → ℕ → Bool) (rank : V → ℕ)
    (truthy : K → Bool) where
  -- The eviction; `truthy` is the test of the key found, where the source makes one.
  unfoldable pub evict : JsMap K V → JsMap K V
  unfolding extreme
  evict m = elim (extreme over rank none m) [
    | none ↦ m
    | some (k, _) ↦ if truthy k then delete k m else m
  ]

  unfoldable pub make_room : ℕ → K → JsMap K V → JsMap K V
  unfolding evict
  make_room limit k m = if leb limit (size m) && not (has k m) then evict m else m

  unfoldable pub bounded_set : ℕ → K → V → JsMap K V → JsMap K V
  unfolding make_room
  bounded_set limit k v m = set k v (make_room limit k m)

  make_room-cases {μ} :
      (P : JsMap K V → Type μ) (limit : ℕ) (k : K) (m : JsMap K V)
      → P m
      → ((j : K) → P (delete j m))
      → P (make_room limit k m)
  unfolding make_room
  make_room-cases P limit k m same less = elim (Bool-cases (leb limit (size m) && not (has k m))) [
    | inr f ↦ rw (f, make_room) same
    | inl t ↦
        rw (t, make_room)
          (elim (Option-cases (extreme over rank none m)) [
            | inl n ↦ rw (n, evict) same
            | inr ((j, r), x) ↦ elim (Bool-cases (truthy j)) [
              | inl y ↦ rw (x, evict) (rw (y, evict) (less j))
              | inr z ↦ rw (x, evict) (rw (z, evict) same)
            ]
          ])
  ]
