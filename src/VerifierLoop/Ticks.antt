-- ===== src/VerifierLoop/Ticks.antt =====
-- What a tick does to the queue and the risk set, and whom it executes.
use mathlib.Core.Path.{subst}
use liquid_bot.Prelude.{
  ℕ, ◌≤◌, ◌≡◌, ◌≢◌, refl, sym, ap, ◌∙◌, Bool, true, false, Option, none, some, List, [], ◌∷◌, map,
  arith, length, take, drop, keep, All, In, ◌==◌, Bool-cases, inl, inr,
}
use liquid_bot.Prelude.Text.{Text, text_key}
use liquid_bot.Prelude.Result.{Result, ok, err}
use liquid_bot.JsMap.{keys, Distinct}
use liquid_bot.DirtyQueue.{take_batch}
use liquid_bot.DirtyQueue.Order.{take_batch-Takes}
use liquid_bot.ActiveRiskSet.{finite, infinity, ActiveRiskSet, get_min_debt_threshold, update_hf}
use liquid_bot.ActiveRiskSet.Valid.{IsValid, update_hf-IsValid}
use liquid_bot.HealthFactorChecker.{
  HealthFactorResult, AccountData, CallResult, decoded, Source, sanitize,
}
use liquid_bot.HealthFactorChecker.Batches.{
  Answers, checked, check_batch-eq-checked, Reads, checked-Reads,
}
use liquid_bot.VerifierLoop.{
  VerifierLoop, Config, Execution, is_at_most, should_execute, execution_of, Ticked,
  process_results, after_check, tick,
}

-- The calls of the callback that the results stand for.
abbrev pub executions : Config → Bool → List HealthFactorResult → List Execution
executions c false results = []
executions c true results = map execution_of (keep (should_execute c) results)

module _ (c : Config) (now : ℕ) where
  process_results-executed :
      (on_execute : Bool) (results : List HealthFactorResult) (risk : ActiveRiskSet)
      → (process_results c now on_execute results risk).1.executed ≡ executions c on_execute results
  unfolding process_results
  process_results-executed false [] risk = refl
  process_results-executed true [] risk = refl
  process_results-executed false (r ∷ results) risk =
      let ih =
        process_results-executed false results
          (update_hf c.settings now r.address r.health_factor r.debt_usd_1e18
            r.total_collateral_base risk).0 in
      elim (Bool-cases (should_execute c r)) [ inl y ↦ rw (y, ih) refl | inr n ↦ rw (n, ih) refl ]
  process_results-executed true (r ∷ results) risk =
      let ih =
        process_results-executed true results
          (update_hf c.settings now r.address r.health_factor r.debt_usd_1e18
            r.total_collateral_base risk).0 in
      elim (Bool-cases (should_execute c r)) [ inl y ↦ rw (y, ih) refl | inr n ↦ rw (n, ih) refl ]

  process_results-IsValid :
      (on_execute : Bool) (results : List HealthFactorResult) (risk : ActiveRiskSet)
      → IsValid c.settings risk
      → IsValid c.settings (process_results c now on_execute results risk).0
  unfolding process_results
  process_results-IsValid on_execute [] risk v = v
  process_results-IsValid on_execute (r ∷ results) risk v =
      process_results-IsValid on_execute results
        (update_hf c.settings now r.address r.health_factor r.debt_usd_1e18 r.total_collateral_base
          risk).0
        (update_hf-IsValid c.settings now r.address r.health_factor r.debt_usd_1e18
          r.total_collateral_base risk v)

-- The users that a tick takes.
abbrev pub batch_of : VerifierLoop → List Text
batch_of l = take l.batch_size (keys l.dirty_queue.queue)

-- What a tick leaves and does, if the multicall answers by `f`.
abbrev pub Ticks :
    Config
    → Source
    → (Text → CallResult)
    → VerifierLoop
    → Option (VerifierLoop × Result Ticked)
    → Type 0
Ticks c src f l none = ⊥
Ticks c src f l (some (after, err message)) = ⊥
Ticks c src f l (some (after, ok ticked)) =
    (after.dirty_queue.queue ≡ drop l.batch_size l.dirty_queue.queue)
    × IsValid c.settings after.active_risk_set
    × (ticked.executed ≡ executions c l.on_execute (checked c.base_currency src f (batch_of l)))

pub empty_list : (xs : List Text) → (length xs == 0) ≡ true → xs ≡ []
empty_list [] h = refl
empty_list (x ∷ xs) h = absurd (ground arith)

no_executions : (c : Config) (on_execute : Bool) → [] ≡ executions c on_execute []
no_executions c false = refl
no_executions c true = refl

-- If the multicall answers for each user alone, nobody waits twice and the risk set is valid, a tick
-- ends without an error. It takes the users at the front of the queue, leaves the others and keeps
-- the set valid. It executes exactly those of the users taken, in order, whose health factor is at
-- most the threshold with the minimum debt, and nobody if there is no callback.
pub tick-Ticks :
    (c : Config) (src : Source) (f : Text → CallResult) (now : ℕ) (l : VerifierLoop)
    → Answers src f
    → Distinct l.dirty_queue.queue
    → IsValid c.settings l.active_risk_set
    → Ticks c src f l (tick c src now l)
unfolding tick after_check
tick-Ticks c src f now l answers distinct v =
    let t = take_batch-Takes l.batch_size l.dirty_queue distinct in
    let batch = (take_batch l.batch_size l.dirty_queue).1 in
    elim (Bool-cases (length batch == 0)) [
      | inl empty ↦
          rw (empty, tick)
            (
              t.1,
              v,
              no_executions c l.on_execute
                  ∙ ap (λ xs. executions c l.on_execute (checked c.base_currency src f xs)) {x = []}
                      {y = batch_of l} (sym (empty_list batch empty) ∙ t.0),
            )
      | inr some_users ↦
          rw (some_users, tick)
            (rw
              (check_batch-eq-checked c.base_currency src f batch (length batch) answers
                (ground arith))
              (
                t.1,
                process_results-IsValid c now l.on_execute (checked c.base_currency src f batch)
                    l.active_risk_set v,
                process_results-executed c now l.on_execute (checked c.base_currency src f batch)
                      l.active_risk_set
                    ∙ ap (λ xs. executions c l.on_execute (checked c.base_currency src f xs)) t.0,
              ))
    ]

-- An execution that an account stands for: it owes something, the health factor that `sanitize` makes
-- of it is at most the threshold, and it has no collateral where that factor is 0.
pub record IsJustified (c : Config) (f : Text → CallResult) (batch : List Text) (e : Execution)
    : Type 0 where
  pub taken : In e.user batch
  pub account : AccountData
  pub answered : f e.user ≡ decoded account
  pub owes : account.total_debt_base ≢ 0
  pub made : sanitize account ≡ some e.health_factor
  pub low : is_at_most e.health_factor c.hf_threshold_execute ≡ true
  pub zero_factor : account.health_factor_raw ≡ 0 → account.total_collateral_base ≡ 0
  pub large : get_min_debt_threshold c.settings ≤ e.debt_usd_1e18

sanitize-finite :
    (d : AccountData)
    → d.total_debt_base ≢ 0
    → (d.health_factor_raw ≡ 0 → d.total_collateral_base ≡ 0)
    → sanitize d ≡ some (finite d.health_factor_raw)
unfolding sanitize
sanitize-finite d owes zero_factor = elim (Bool-cases (d.total_debt_base == 0)) [
  | inl none_owed ↦ absurd (owes (ground (arith, none_owed)))
  | inr some_owed ↦ elim (Bool-cases (d.health_factor_raw == 0)) [
    | inr n ↦ rw (some_owed, n) refl
    | inl y ↦
        let raw : d.health_factor_raw ≡ 0 = ground (arith, y) in
        let bare : (d.total_collateral_base == 0) ≡ true = ground (arith, zero_factor raw) in
        rw (some_owed, y, bare) (ap (λ h. some (finite h)) (sym raw))
  ]
]

execution_of-IsJustified :
    (c : Config) (f : Text → CallResult) (batch : List Text) (r : HealthFactorResult)
    → should_execute c r ≡ true
    → Reads f batch r
    → IsJustified c f batch (execution_of r)
execution_of-IsJustified c f batch r due reads =
    let large : get_min_debt_threshold c.settings ≤ r.debt_usd_1e18 = ground arith in
    let low : is_at_most r.health_factor c.hf_threshold_execute ≡ true = ground arith in
    elim reads.1.factor [
      | inl h ↦
          let never : is_at_most infinity c.hf_threshold_execute ≡ true = rw h.0 at low in absurd cc
      | inr h ↦ record {
        taken = reads.0;
        account = reads.1.account;
        answered = reads.1.answered;
        owes = h.1;
        made = sanitize-finite reads.1.account h.1 h.2 ∙ ap some (sym h.0);
        low = low;
        zero_factor = h.2;
        large = large;
      }
    ]

executions-IsJustified :
    (c : Config) (f : Text → CallResult) (batch : List Text) (on_execute : Bool)
    (rs : List HealthFactorResult)
    → All (Reads f batch) rs
    → All (IsJustified c f batch) (executions c on_execute rs)
executions-IsJustified c f batch false rs h = tt
executions-IsJustified c f batch true [] h = tt
executions-IsJustified c f batch true (r ∷ rs) h =
    let ih = executions-IsJustified c f batch true rs h.1 in
    elim (Bool-cases (should_execute c r)) [
      | inl due ↦ rw due (execution_of-IsJustified c f batch r due h.0, ih)
      | inr n ↦ rw n ih
    ]

abbrev pub ExecutesJustified :
    Config → (Text → CallResult) → List Text → Option (VerifierLoop × Result Ticked) → Type 0
ExecutesJustified c f batch none = ⊥
ExecutesJustified c f batch (some (after, err message)) = ⊥
ExecutesJustified c f batch (some (after, ok ticked)) = All (IsJustified c f batch) ticked.executed

from_Ticks :
    (c : Config) (src : Source) (f : Text → CallResult) (l : VerifierLoop)
    (o : Option (VerifierLoop × Result Ticked))
    → Ticks c src f l o
    → ExecutesJustified c f (batch_of l) o
from_Ticks c src f l none h = h
from_Ticks c src f l (some (after, err message)) h = h
from_Ticks c src f l (some (after, ok ticked)) h =
    subst (All (IsJustified c f (batch_of l))) (sym h.2) (
      executions-IsJustified c f (batch_of l) l.on_execute
        (checked c.base_currency src f (batch_of l))
        (checked-Reads c.base_currency src f (batch_of l)))

-- If the multicall answers for each user alone, nobody waits twice and the risk set is valid, a tick
-- ends without an error and executes only users that it took from the queue. The account of each owes
-- something, the health factor read from it is at most the threshold, it has no collateral where the
-- chain's health factor is 0, and the debt in dollars reaches the minimum.
pub tick-ExecutesJustified :
    (c : Config) (src : Source) (f : Text → CallResult) (now : ℕ) (l : VerifierLoop)
    → Answers src f
    → Distinct l.dirty_queue.queue
    → IsValid c.settings l.active_risk_set
    → ExecutesJustified c f (batch_of l) (tick c src now l)
tick-ExecutesJustified c src f now l answers distinct v =
    from_Ticks c src f l (tick c src now l) (tick-Ticks c src f now l answers distinct v)
