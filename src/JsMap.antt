-- ===== src/JsMap.antt =====
-- The built-in `Map`: entries in the order in which their keys were first set, over keys with a
-- Boolean equality. A `Set` is such a map with no values.
pub mod Laws
pub mod Entries
pub mod Evict
pub mod Bounded
pub mod Sets
use liquid_bot.Prelude.{
  ℕ, ◌≡◌, Bool, true, false, ◌||◌, Option, none, some, List, [], ◌∷◌, map, length, if◌then◌else◌,
  Eq,
}

abbrev pub JsMap {ℓ κ} : Type ℓ → Type κ → Type (ℓ ⊔ κ)
JsMap K V = List (K × V)

module _ {ℓ κ} {K : Type ℓ} {V : Type κ} where
  -- `m.size`
  abbrev pub size : JsMap K V → ℕ
  size m = length m

  -- `m.keys()` and `m.values()`
  abbrev pub keys : JsMap K V → List K
  keys = map (λ e. e.0)

  abbrev pub values : JsMap K V → List V
  values = map (λ e. e.1)

module _ {ℓ κ} {K : Type ℓ} {V : Type κ} ⦃e : Eq K⦄ where
  -- `m.get(k)`; `none` is `undefined`
  unfoldable pub get : K → JsMap K V → Option V
  get k [] = none
  get k ((j, v) ∷ m) = if e.beq j k then some v else get k m

  -- `m.has(k)`
  unfoldable pub has : K → JsMap K V → Bool
  has k [] = false
  has k ((j, v) ∷ m) = e.beq j k || has k m

  -- `m.set(k, v)`: a key that is there keeps its place
  unfoldable pub set : K → V → JsMap K V → JsMap K V
  set k v [] = (k, v) ∷ []
  set k v ((j, w) ∷ m) = if e.beq j k then (j, v) ∷ m else (j, w) ∷ set k v m

  -- `m.delete(k)`
  unfoldable pub delete : K → JsMap K V → JsMap K V
  delete k [] = []
  delete k ((j, v) ∷ m) = if e.beq j k then delete k m else (j, v) ∷ delete k m

  -- No key occurs twice: what a `Map` guarantees.
  abbrev pub Distinct : JsMap K V → Type 0
  Distinct [] = Unit {0}
  Distinct ((j, v) ∷ m) = (has j m ≡ false) × Distinct m

-- `Set`
abbrev pub JsSet {ℓ} : Type ℓ → Type ℓ
JsSet K = JsMap K (Unit {0})

module _ {ℓ} {K : Type ℓ} ⦃e : Eq K⦄ where
  -- `s.add(k)`
  abbrev pub add : K → JsSet K → JsSet K
  add k s = set k tt s

  -- The elements of a list, added in turn.
  unfoldable pub add_all : List K → JsSet K → JsSet K
  add_all [] s = s
  add_all (k ∷ ks) s = add_all ks (add k s)

  -- `new Set(ks)`
  abbrev pub set_of : List K → JsSet K
  set_of ks = add_all ks []

  -- `ks.includes(k)`
  unfoldable pub includes : K → List K → Bool
  includes k [] = false
  includes k (j ∷ ks) = e.beq j k || includes k ks
