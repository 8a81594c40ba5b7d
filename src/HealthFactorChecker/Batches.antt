-- ===== src/HealthFactorChecker/Batches.antt =====
-- The batches together, and what a result says of the account.
use mathlib.Core.List.{append_assoc}
use liquid_bot.Prelude.{
  ℕ, zero, suc, ◌≤◌, ◌<◌, ◌≡◌, ◌≢◌, ◌⊎◌, refl, sym, ap, ◌∙◌, Option, none, some, List, [], ◌∷◌,
  ◌++◌, map, arith, length, take, drop, All, In, here, there, All-append, length-drop,
  take-append-drop, ◌==◌, if◌then◌else◌, Bool-cases, Option-cases, inl, inr,
}
use liquid_bot.Prelude.Text.{Text}
use liquid_bot.Prelude.Result.{Result, ok, err}
use liquid_bot.ActiveRiskSet.{HealthFactor, finite, infinity}
use liquid_bot.HealthFactorChecker.{
  HealthFactorResult, AccountData, CallResult, unsuccessful, undecodable, decoded, BaseCurrency,
  Source, sanitize, debt_usd, result_of, check_call, collect, check_single_batch, check_batches,
  check_batch,
}

-- The multicall answers for each user alone, whoever else is asked for.
abbrev pub Answers : Source → (Text → CallResult) → Type 0
Answers src f = (addresses : List Text) → src.aggregate addresses ≡ ok (map f addresses)

module _ (c : BaseCurrency) (src : Source) (f : Text → CallResult) where
  -- The users one by one.
  abbrev pub checked : List Text → List HealthFactorResult
  checked [] = []
  checked (address ∷ addresses) = check_call c src address (f address) ++ checked addresses

  collect-map : (xs : List Text) → collect c src xs (map f xs) ≡ checked xs
  unfolding collect
  collect-map [] = refl
  collect-map (x ∷ xs) = ap (λ rs. check_call c src x (f x) ++ rs) (collect-map xs)

  checked-append : (xs ys : List Text) → checked (xs ++ ys) ≡ checked xs ++ checked ys
  checked-append [] ys = refl
  checked-append (x ∷ xs) ys =
      ap (λ rs. check_call c src x (f x) ++ rs) (checked-append xs ys)
      ∙ sym (append_assoc (check_call c src x (f x)) (checked xs) (checked ys))

  check_single_batch_lem :
      Answers src f → (xs : List Text) → check_single_batch c src xs ≡ ok (checked xs)
  unfolding check_single_batch
  check_single_batch_lem answers xs = rw (answers xs, check_single_batch) (ap ok (collect-map xs))

  check_batches_lem :
      Answers src f
      → (fuel size : ℕ) (xs : List Text) → 0 < size
      → length xs ≤ fuel
      → check_batches fuel c src size xs ≡ some (ok (checked xs))
  unfolding check_batches
  check_batches_lem answers fuel size [] pos enough = refl
  check_batches_lem answers zero size (x ∷ xs) pos enough = absurd (omega (arith, enough))
  check_batches_lem answers (suc fuel) size (x ∷ xs) pos enough =
      let later =
        check_batches_lem answers fuel size (drop size (x ∷ xs)) pos
          (omega (arith, length-drop size (x ∷ xs))) in
      rw (check_single_batch_lem answers (take size (x ∷ xs)), later, check_batches)
        (ap (λ rs. some (ok rs))
          (sym (checked-append (take size (x ∷ xs)) (drop size (x ∷ xs)))
            ∙ ap checked (take-append-drop size (x ∷ xs))))

-- If the multicall answers for each user alone, then for every batch size but 0 the loop ends, and
-- the results are those of the users checked one by one, in order: the batches do not matter.
pub check_batch-eq-checked :
    (c : BaseCurrency) (src : Source) (f : Text → CallResult) (addresses : List Text) (size : ℕ)
    → Answers src f
    → 0 < size
    → check_batch c src addresses size ≡ some (ok (checked c src f addresses))
unfolding check_batch
check_batch-eq-checked c src f addresses size answers pos =
    check_batches_lem c src f answers (length addresses) size addresses pos (omega arith)

-- A result that rests on an account: one with debt has the chain's health factor, and one whose
-- health factor is 0 has no collateral.
pub record IsReading (f : Text → CallResult) (r : HealthFactorResult) : Type 0 where
  pub account : AccountData
  pub answered : f r.address ≡ decoded account
  pub debt : r.total_debt_base ≡ account.total_debt_base
  pub collateral : r.total_collateral_base ≡ account.total_collateral_base
  pub factor :
      (r.health_factor ≡ infinity) × (account.total_debt_base ≡ 0)
      ⊎ (r.health_factor ≡ finite account.health_factor_raw)
        × (account.total_debt_base ≢ 0)
        × (account.health_factor_raw ≡ 0 → account.total_collateral_base ≡ 0)

abbrev IsSanitized : AccountData → Option HealthFactor → Type 0
IsSanitized d none = Unit {0}
IsSanitized d (some hf) =
    (hf ≡ infinity) × (d.total_debt_base ≡ 0)
    ⊎ (hf ≡ finite d.health_factor_raw)
      × (d.total_debt_base ≢ 0)
      × (d.health_factor_raw ≡ 0 → d.total_collateral_base ≡ 0)

sanitize-IsSanitized : (d : AccountData) → IsSanitized d (sanitize d)
unfolding sanitize
sanitize-IsSanitized d = elim (Bool-cases (d.total_debt_base == 0)) [
  | inl y ↦ rw (y, if◌then◌else◌) (inl (refl, ground arith))
  | inr owes ↦
      rw (owes, if◌then◌else◌)
        (elim (Bool-cases (d.health_factor_raw == 0)) [
          | inr n ↦ rw (n, if◌then◌else◌) (inr (refl, ground arith, ground arith))
          | inl zero_hf ↦
              rw (zero_hf, if◌then◌else◌)
                (elim (Bool-cases (d.total_collateral_base == 0)) [
                  | inr n ↦ rw (n, if◌then◌else◌) tt
                  | inl y ↦ rw (y, if◌then◌else◌) (inr (ground arith, ground arith, ground arith))
                ])
        ])
]

result_of-IsReading :
    (f : Text → CallResult) (x : Text) (d : AccountData) (hf : HealthFactor) (r : Result ℕ)
    → f x ≡ decoded d
    → IsSanitized d (some hf)
    → All (λ res. (res.address ≡ x) × IsReading f res) (result_of x d hf r)
result_of-IsReading f x d hf (err message) e h = tt
result_of-IsReading f x d hf (ok debt) e h =
    ((refl, record { account = d; answered = e; debt = refl; collateral = refl; factor = h }), tt)

check_call-IsReading :
    (c : BaseCurrency) (src : Source) (f : Text → CallResult) (x : Text) (r : CallResult)
    → f x ≡ r
    → All (λ res. (res.address ≡ x) × IsReading f res) (check_call c src x r)
unfolding check_call
check_call-IsReading c src f x unsuccessful e = tt
check_call-IsReading c src f x undecodable e = tt
check_call-IsReading c src f x (decoded d) e = elim (Option-cases (sanitize d)) [
  | inl n ↦ rw (n, check_call) tt
  | inr (hf, y) ↦
      let h : IsSanitized d (some hf) = rw y at (sanitize-IsSanitized d) in
      rw (y, check_call)
        (result_of-IsReading f x d hf (debt_usd c (src.eth_usd_price x) d.total_debt_base) e h)
]

-- A result for one of the users, which rests on its account.
abbrev pub Reads : (Text → CallResult) → List Text → HealthFactorResult → Type 0
Reads f addresses r = In r.address addresses × IsReading f r

here_All :
    (f : Text → CallResult) (x : Text) (xs : List Text) (rs : List HealthFactorResult)
    → All (λ res. (res.address ≡ x) × IsReading f res) rs
    → All (Reads f (x ∷ xs)) rs
here_All f x xs [] h = tt
here_All f x xs (r ∷ rs) h = ((here (sym h.0.0), h.0.1), here_All f x xs rs h.1)

there_All :
    (f : Text → CallResult) (x : Text) (xs : List Text) (rs : List HealthFactorResult)
    → All (Reads f xs) rs
    → All (Reads f (x ∷ xs)) rs
there_All f x xs [] h = tt
there_All f x xs (r ∷ rs) h = ((there h.0.0, h.0.1), there_All f x xs rs h.1)

pub checked-Reads :
    (c : BaseCurrency) (src : Source) (f : Text → CallResult) (xs : List Text)
    → All (Reads f xs) (checked c src f xs)
checked-Reads c src f [] = tt
checked-Reads c src f (x ∷ xs) =
    All-append (Reads f (x ∷ xs)) (check_call c src x (f x)) (checked c src f xs)
      (here_All f x xs (check_call c src x (f x)) (check_call-IsReading c src f x (f x) refl))
      (there_All f x xs (checked c src f xs) (checked-Reads c src f xs))
