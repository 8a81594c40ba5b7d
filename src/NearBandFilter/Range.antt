-- ===== src/NearBandFilter/Range.antt =====
-- What is kept, and the range of the health factors kept.
use liquid_bot.Prelude.{
  ℕ, ◌+◌, ◌≤◌, ◌≡◌, refl, sym, ap, ◌∙◌, true, false, Option, none, some, List, [], ◌∷◌, ◌++◌, arith,
  length, keep, All, max, if◌then◌else◌, Bool-cases, inl, inr,
}
use liquid_bot.NearBandFilter.{
  UserSnapshot, NearBandFilterConfig, NearBandFilterResult, should_check, Loop, lower_hf,
  filter_one, filter_loop, or_zero, initial, filter,
}

-- The health factor is within the bounds of the loop.
abbrev pub IsAbove : Option ℕ → ℕ → Type 0
IsAbove none hf = ⊥
IsAbove (some least) hf = least ≤ hf

abbrev pub IsBetween : Loop → UserSnapshot → Type 0
IsBetween l s = IsAbove l.min_hf s.hf × (s.hf ≤ l.max_hf)

IsAbove-lower_hf : (o : Option ℕ) (hf other : ℕ) → IsAbove o other → lower_hf o hf ≤ other
IsAbove-lower_hf none hf other h = absurd h
IsAbove-lower_hf (some least) hf other h = omega (arith, h)

lower_hf-le : (o : Option ℕ) (hf : ℕ) → lower_hf o hf ≤ hf
lower_hf-le none hf = omega arith
lower_hf-le (some least) hf = omega arith

-- Bounds that move outwards keep what was between them, and take one snapshot more.
All-widen :
    (l m : Loop) (s : UserSnapshot) (xs : List UserSnapshot)
    → ((x : UserSnapshot) → IsBetween l x → IsBetween m x)
    → IsBetween m s
    → All (IsBetween l) xs
    → All (IsBetween m) (xs ++ (s ∷ []))
All-widen l m s [] wide last h = (last, tt)
All-widen l m s (x ∷ xs) wide last (hx, h) = (wide x hx, All-widen l m s xs wide last h)

filter_one-IsBetween :
    (c : NearBandFilterConfig) (s : UserSnapshot) (l : Loop)
    → All (IsBetween l) l.kept
    → All (IsBetween (filter_one c s l)) (filter_one c s l).kept
unfolding filter_one
filter_one-IsBetween c s l h = elim (Bool-cases (should_check c s)) [
  | inr n ↦ rw (n, if◌then◌else◌) h
  | inl y ↦
      let next : Loop = record {
        kept = l.kept ++ (s ∷ []);
        skipped = l.skipped;
        min_hf = some (lower_hf l.min_hf s.hf);
        max_hf = max l.max_hf s.hf;
      } in
      rw (y, if◌then◌else◌)
        (All-widen l next s l.kept
          (λ x b. (IsAbove-lower_hf l.min_hf s.hf x.hf b.0, omega (arith, b.1)))
          (lower_hf-le l.min_hf s.hf, omega arith) h)
]

filter_loop-IsBetween :
    (c : NearBandFilterConfig) (snapshots : List UserSnapshot) (l : Loop)
    → All (IsBetween l) l.kept
    → All (IsBetween (filter_loop c snapshots l)) (filter_loop c snapshots l).kept
unfolding filter_loop
filter_loop-IsBetween c [] l h = h
filter_loop-IsBetween c (s ∷ snapshots) l h =
    filter_loop-IsBetween c snapshots (filter_one c s l) (filter_one-IsBetween c s l h)

append_assoc : (xs ys zs : List UserSnapshot) → (xs ++ ys) ++ zs ≡ xs ++ (ys ++ zs)
append_assoc [] ys zs = refl
append_assoc (x ∷ xs) ys zs = ap (λ t. x ∷ t) (append_assoc xs ys zs)

append_nil : (xs : List UserSnapshot) → xs ++ [] ≡ xs
append_nil [] = refl
append_nil (x ∷ xs) = ap (λ t. x ∷ t) (append_nil xs)

filter_one-accepted :
    (c : NearBandFilterConfig) (s : UserSnapshot) (l : Loop)
    → should_check c s ≡ true
    → ((filter_one c s l).kept ≡ l.kept ++ (s ∷ [])) × ((filter_one c s l).skipped ≡ l.skipped)
unfolding filter_one
filter_one-accepted c s l y = rw (y, if◌then◌else◌) (refl, refl)

filter_one-refused :
    (c : NearBandFilterConfig) (s : UserSnapshot) (l : Loop)
    → should_check c s ≡ false
    → ((filter_one c s l).kept ≡ l.kept) × ((filter_one c s l).skipped ≡ l.skipped + 1)
unfolding filter_one
filter_one-refused c s l n = rw (n, if◌then◌else◌) (refl, refl)

filter_loop-kept :
    (c : NearBandFilterConfig) (snapshots : List UserSnapshot) (l : Loop)
    → ((filter_loop c snapshots l).kept ≡ l.kept ++ keep (should_check c) snapshots)
      × ((filter_loop c snapshots l).skipped + length (keep (should_check c) snapshots)
          ≡ l.skipped + length snapshots)
unfolding filter_loop
filter_loop-kept c [] l = (sym (append_nil l.kept), refl)
filter_loop-kept c (s ∷ snapshots) l =
    let later = keep (should_check c) snapshots in
    let (kept, count) = filter_loop-kept c snapshots (filter_one c s l) in
    elim (Bool-cases (should_check c s)) [
      | inl y ↦
          let (grown, same) = filter_one-accepted c s l y in
          rw (y, if◌then◌else◌)
            (
              kept ∙ ap (λ t. t ++ later) grown ∙ append_assoc l.kept (s ∷ []) later,
              omega (arith, count, same),
            )
      | inr n ↦
          let (same, more) = filter_one-refused c s l n in
          rw (n, if◌then◌else◌) (kept ∙ ap (λ t. t ++ later) same, omega (arith, count, more))
    ]

abbrev pub IsInRange : NearBandFilterResult → UserSnapshot → Type 0
IsInRange r s = (r.hf_range.lowest ≤ s.hf) × (s.hf ≤ r.hf_range.highest)

IsAbove-or_zero : (o : Option ℕ) (hf : ℕ) → IsAbove o hf → or_zero o ≤ hf
IsAbove-or_zero none hf h = absurd h
IsAbove-or_zero (some least) hf h = h

All-IsInRange :
    (l : Loop) (r : NearBandFilterResult) (xs : List UserSnapshot)
    → r.hf_range.lowest ≡ or_zero l.min_hf
    → r.hf_range.highest ≡ l.max_hf
    → All (IsBetween l) xs
    → All (IsInRange r) xs
All-IsInRange l r [] lo hi h = tt
All-IsInRange l r (x ∷ xs) lo hi (b, h) =
    let above = IsAbove-or_zero l.min_hf x.hf b.0 in
    ((omega (arith, lo, above), omega (arith, hi, b.1)), All-IsInRange l r xs lo hi h)

-- `filter` keeps the snapshots that `shouldCheck` accepts, in their order, counts the others, and
-- gives a range that holds the health factors of all that it keeps.
pub filter-Keeps :
    (c : NearBandFilterConfig) (snapshots : List UserSnapshot)
    → ((filter c snapshots).kept ≡ keep (should_check c) snapshots)
      × ((filter c snapshots).skipped + length (filter c snapshots).kept ≡ length snapshots)
      × All (IsInRange (filter c snapshots)) (filter c snapshots).kept
unfolding filter
filter-Keeps c snapshots =
    let (kept, count) = filter_loop-kept c snapshots initial in
    let same = ap length kept in
    let l = filter_loop c snapshots initial in
    (
      kept,
      omega (arith, same, count),
      All-IsInRange l (filter c snapshots) l.kept refl refl
          (filter_loop-IsBetween c snapshots initial tt),
    )
