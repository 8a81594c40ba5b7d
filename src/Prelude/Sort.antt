-- ===== src/Prelude/Sort.antt =====
-- `Array.prototype.sort`: a stable sort. `after a b` says that the comparator puts `a` behind `b`,
-- that is, `compare(a, b) > 0`.
use mathlib.Core.List.{Perm}
use mathlib.Core.List.Perm
use mathlib.Core.Path.{subst}
use liquid_bot.Prelude.{
  ◌≡◌, refl, Bool, true, false, List, [], ◌∷◌, if◌then◌else◌, Bool-cases, inl, inr, All, In, here,
  there, All-take, All-drop, take, drop, ℕ, zero, suc, arith, length,
}

module _ {ℓ} {A : Type ℓ} (after : A → A → Bool) where
  -- `x` stood in front of all of `ys`: it passes those that it must come after, and no other.
  unfoldable pub insert : A → List A → List A
  insert x [] = x ∷ []
  insert x (y ∷ ys) = if after x y then y ∷ insert x ys else x ∷ y ∷ ys

  unfoldable pub sort : List A → List A
  unfolding insert
  sort [] = []
  sort (x ∷ xs) = insert x (sort xs)

  -- No element must come after a later one.
  abbrev pub IsSorted : List A → Type 0
  IsSorted [] = Unit
  IsSorted (x ∷ xs) = All (λ y. after x y ≡ false) xs × IsSorted xs

  insert-perm : (x : A) (ys : List A) → Perm (insert x ys) (x ∷ ys)
  unfolding insert
  insert-perm x [] = Perm.rfl
  insert-perm x (y ∷ ys) = elim (Bool-cases (after x y)) [
    | inl e ↦ rw (e, insert) (Perm.trans (Perm.cons y (insert-perm x ys)) (Perm.swap x y ys))
    | inr e ↦ rw (e, insert) Perm.rfl
  ]

  length-insert : (x : A) (ys : List A) → length (insert x ys) ≡ suc (length ys)
  unfolding insert
  length-insert x [] = refl
  length-insert x (y ∷ ys) = elim (Bool-cases (after x y)) [
    | inl e ↦ rw (e, insert) (omega (arith, length-insert x ys))
    | inr e ↦ rw (e, insert) refl
  ]

  pub length-sort : (xs : List A) → length (sort xs) ≡ length xs
  unfolding sort
  length-sort [] = refl
  length-sort (x ∷ xs) = omega (arith, length-insert x (sort xs), length-sort xs)

  -- Sorting loses no element and makes none up.
  pub sort-perm : (xs : List A) → Perm (sort xs) xs
  unfolding sort
  sort-perm [] = Perm.nil
  sort-perm (x ∷ xs) = Perm.trans (insert-perm x (sort xs)) (Perm.cons x (sort-perm xs))

  module _ {κ} (P : A → Type κ) where
    insert-All : (x : A) (ys : List A) → P x → All P ys → All P (insert x ys)
    unfolding insert
    insert-All x [] hx h = (hx, tt)
    insert-All x (y ∷ ys) hx h = elim (Bool-cases (after x y)) [
      | inl e ↦ rw (e, insert) (h.0, insert-All x ys hx h.1)
      | inr e ↦ rw (e, insert) (hx, h)
    ]

    pub sort-All : (xs : List A) → All P xs → All P (sort xs)
    unfolding sort
    sort-All [] h = tt
    sort-All (x ∷ xs) h = insert-All x (sort xs) h.0 (sort-All xs h.1)

module _ {ℓ} {A : Type ℓ} (after : A → A → Bool) where
  In-insert_self : (x : A) (ys : List A) → In x (insert after x ys)
  unfolding insert
  In-insert_self x [] = here refl
  In-insert_self x (y ∷ ys) = elim (Bool-cases (after x y)) [
    | inl e ↦ rw (e, insert) (there (In-insert_self x ys))
    | inr e ↦ rw (e, insert) (here refl)
  ]

  In-insert : {a : A} (x : A) {ys : List A} → In a ys → In a (insert after x ys)
  unfolding insert
  In-insert x (here {x = y} {xs = ys} h) = elim (Bool-cases (after x y)) [
    | inl e ↦ rw (e, insert) (here h)
    | inr e ↦ rw (e, insert) (there (here h))
  ]
  In-insert x (there {x = y} {xs = ys} m) = elim (Bool-cases (after x y)) [
    | inl e ↦ rw (e, insert) (there (In-insert x m))
    | inr e ↦ rw (e, insert) (there (there m))
  ]

  pub In-sort : {a : A} {xs : List A} → In a xs → In a (sort after xs)
  unfolding sort
  In-sort {a} (here {x = x} {xs = xs} h) =
      subst (λ z. In z (insert after x (sort after xs))) h (In-insert_self x (sort after xs))
  In-sort (there {x = x} m) = In-insert x (In-sort m)

-- With a comparator that is a strict weak order, the result is sorted, and every element that is
-- cut off its front may stay in front of what is cut off behind.
module _ {ℓ} {A : Type ℓ} (after : A → A → Bool)
    (asym : (a b : A) → after a b ≡ true → after b a ≡ false)
    (chain : (a b c : A) → after a b ≡ false → after b c ≡ false → after a c ≡ false) where
  below :
      (x y : A) (ys : List A)
      → after x y ≡ false
      → All (λ z. after y z ≡ false) ys
      → All (λ z. after x z ≡ false) ys
  below x y [] h hs = tt
  below x y (z ∷ ys) h hs = (chain x y z h hs.0, below x y ys h hs.1)

  insert-IsSorted : (x : A) (ys : List A) → IsSorted after ys → IsSorted after (insert after x ys)
  unfolding insert
  insert-IsSorted x [] h = (tt, tt)
  insert-IsSorted x (y ∷ ys) h = elim (Bool-cases (after x y)) [
    | inl e ↦
        rw (e, insert)
          (
            insert-All after (λ z. after y z ≡ false) x ys (asym x y e) h.0,
            insert-IsSorted x ys h.1,
          )
    | inr e ↦ rw (e, insert) ((e, below x y ys e h.0), h)
  ]

  pub sort-IsSorted : (xs : List A) → IsSorted after (sort after xs)
  unfolding sort
  sort-IsSorted [] = tt
  sort-IsSorted (x ∷ xs) = insert-IsSorted x (sort after xs) (sort-IsSorted xs)

module _ {ℓ} {A : Type ℓ} (after : A → A → Bool) where
  pub take-IsSorted : (n : ℕ) (xs : List A) → IsSorted after xs → IsSorted after (take n xs)
  take-IsSorted zero xs h = tt
  take-IsSorted (suc n) [] h = tt
  take-IsSorted (suc n) (x ∷ xs) h = (All-take _ n xs h.0, take-IsSorted n xs h.1)

  pub take-before-drop :
      (n : ℕ) (xs : List A)
      → IsSorted after xs
      → All (λ x. All (λ y. after x y ≡ false) (drop n xs)) (take n xs)
  take-before-drop zero xs h = tt
  take-before-drop (suc n) [] h = tt
  take-before-drop (suc n) (x ∷ xs) h = (All-drop _ n xs h.0, take-before-drop n xs h.1)
