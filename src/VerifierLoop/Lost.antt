-- ===== src/VerifierLoop/Lost.antt =====
-- A tick whose multicall fails.
use liquid_bot.Prelude.{
  ℕ, zero, suc, ◌≡◌, ◌≢◌, refl, ap, sym, ◌∙◌, false, some, List, [], ◌∷◌, arith, length, take, drop,
  All, ◌==◌, Bool-cases, inl, inr,
}
use liquid_bot.Prelude.Text.{Text, text_key}
use liquid_bot.Prelude.Result.{err}
use liquid_bot.JsMap
use liquid_bot.JsMap.{JsSet, keys, Distinct}
use liquid_bot.DirtyQueue.{take_batch}
use liquid_bot.DirtyQueue.Order.{take_batch-Takes}
use liquid_bot.HealthFactorChecker.{
  BaseCurrency, Source, check_single_batch, check_batches, check_batch,
}
use liquid_bot.VerifierLoop.{VerifierLoop, Config, after_check, tick}
use liquid_bot.VerifierLoop.Ticks.{batch_of, empty_list}

take_all : (xs : List Text) → take (length xs) xs ≡ xs
take_all [] = refl
take_all (x ∷ xs) = ap (λ ys. x ∷ ys) (take_all xs)

check_batch_fails :
    (c : BaseCurrency) (src : Source) (xs : List Text) (message : Text)
    → xs ≢ []
    → src.aggregate xs ≡ err message
    → check_batch c src xs (length xs) ≡ some (err message)
unfolding check_batch check_batches check_single_batch
check_batch_fails c src [] message some_users e = absurd (some_users refl)
check_batch_fails c src (x ∷ xs) message some_users e =
    rw (take_all xs, e, check_batches, check_single_batch) refl

has-drop :
    (k : Text) (n : ℕ) (s : JsSet Text) → JsMap.has k s ≡ false → JsMap.has k (drop n s) ≡ false
unfolding JsMap.has
has-drop k zero s h = h
has-drop k (suc n) [] h = h
has-drop k (suc n) ((j, x) ∷ s) h = has-drop k n s (ground arith)

-- What is taken from the front does not wait behind it.
All-take-absent :
    (n : ℕ) (s : JsSet Text)
    → Distinct s
    → All (λ k. JsMap.has k (drop n s) ≡ false) (take n (keys s))
All-take-absent zero s d = tt
All-take-absent (suc n) [] d = tt
All-take-absent (suc n) ((k, x) ∷ s) d = (has-drop k n s d.0, All-take-absent n s d.1)

-- If nobody waits twice and the multicall for the users taken fails, a tick ends with its error, the
-- risk set and all else but the queue stay as they were, nobody is executed, and none of the users
-- taken waits any more.
pub tick-lost :
    (c : Config) (src : Source) (now : ℕ) (l : VerifierLoop) (message : Text)
    → Distinct l.dirty_queue.queue
    → batch_of l ≢ []
    → src.aggregate (batch_of l) ≡ err message
    → (tick c src now l
        ≡ some (record l { dirty_queue = (take_batch l.batch_size l.dirty_queue).0 }, err message))
      × All (λ k. JsMap.has k (take_batch l.batch_size l.dirty_queue).0.queue ≡ false) (batch_of l)
unfolding tick after_check
tick-lost c src now l message distinct some_users failed =
    let t = take_batch-Takes l.batch_size l.dirty_queue distinct in
    let batch = (take_batch l.batch_size l.dirty_queue).1 in
    let fails : check_batch c.base_currency src batch (length batch) ≡ some (err message) =
      check_batch_fails c.base_currency src batch message (λ e. some_users (sym t.0 ∙ e))
        (ap src.aggregate t.0 ∙ failed) in
    (
      elim (Bool-cases (length batch == 0)) [
        | inl empty ↦ absurd (some_users (sym t.0 ∙ empty_list batch empty))
        | inr users ↦ rw (users, tick) (rw fails refl)
      ],
      rw t.1 (All-take-absent l.batch_size l.dirty_queue.queue distinct),
    )
