-- ===== src/GasBurstManager/Counts.antt =====
-- Checks and transactions together, one move at a time, and what is counted of them.
use liquid_bot.Prelude.{
  ℕ, ◌+◌, ◌≤◌, ◌≡◌, refl, false, ◌==◌, Option, none, some, List, [], ◌∷◌, ◌++◌, arith, All,
  if◌then◌else◌, nat_eq,
}
use liquid_bot.Prelude.Text.{Text, text_key}
use liquid_bot.JsMap
use liquid_bot.JsMap.{JsMap}
use liquid_bot.GasBurstManager.{
  PendingTransaction, GasBurstManager, Check, Phase, timer, receipt, signature, broadcast, Reply,
  track, resume, confirm_transaction, clear_tracking,
}

-- The manager with the checks that wait, of timers and of the network, in any order.
pub record World : Type 0 where
  pub manager : GasBurstManager
  pub checks : List Check

-- No check for the hash waits.
abbrev pub IsFree : Text → List Check → Type 0
IsFree tx_hash checks = All (λ c. text_key.beq c.tx_hash tx_hash ≡ false) checks

-- A caller tracks, confirms or clears, or one check that waits goes on, whichever it is. A hash is
-- tracked again only when no check for it waits.
pub data Step (w : World) : World → Type 0 where
  tracks :
      (tx : PendingTransaction)
      → IsFree tx.tx_hash w.checks
      → Step w
          (record { manager = (track tx w.manager).0; checks = (track tx w.manager).1 ++ w.checks })
  goes_on :
      (before after : List Check) (c : Check) (r : Reply)
      → w.checks ≡ before ++ (c ∷ after)
      → Step w (record {
        manager = (resume c c.phase r w.manager).0;
        checks = before ++ ((resume c c.phase r w.manager).1 ++ after);
      })
  confirms :
      (tx_hash : Text) → Step w (record w { manager = confirm_transaction tx_hash w.manager })
  clears : Step w (record w { manager = clear_tracking w.manager })

pub data Reach (w : World) : World → Type 0 where
  here : Reach w w
  next : {u v : World} → Reach w u → Step u v → Reach w v

-- How often a transaction was replaced.
abbrev pub count_of : Option PendingTransaction → ℕ
count_of none = 0
count_of (some tx) = tx.bump_count

unfoldable pub bumps : ℕ → GasBurstManager → ℕ
bumps id m = count_of (JsMap.get id m.objects)

-- The check holds the transaction.
abbrev pub holds : ℕ → Phase → ℕ
holds id timer = 0
holds id (receipt o) = if o == id then 1 else 0
holds id (signature o fees) = if o == id then 1 else 0
holds id (broadcast o fees) = if o == id then 1 else 0

abbrev pub is_at : ℕ → Option ℕ → ℕ
is_at id none = 0
is_at id (some o) = if o == id then 1 else 0

-- The check is a timer that would find the transaction.
abbrev pub finds : ℕ → JsMap Text ℕ → Text → Phase → ℕ
finds id pending tx_hash timer = is_at id (JsMap.get tx_hash pending)
finds id pending tx_hash (receipt o) = 0
finds id pending tx_hash (signature o fees) = 0
finds id pending tx_hash (broadcast o fees) = 0

unfoldable pub holders : ℕ → List Check → ℕ
holders id [] = 0
holders id (c ∷ checks) = holds id c.phase + holders id checks

unfoldable pub timers : ℕ → JsMap Text ℕ → List Check → ℕ
timers id pending [] = 0
timers id pending (c ∷ checks) = finds id pending c.tx_hash c.phase + timers id pending checks

pub holders-append :
    (id : ℕ) (xs ys : List Check) → holders id (xs ++ ys) ≡ holders id xs + holders id ys
unfolding holders
holders-append id [] ys = omega arith
holders-append id (x ∷ xs) ys = omega (arith, holders-append id xs ys)

pub timers-append :
    (id : ℕ) (pending : JsMap Text ℕ) (xs ys : List Check)
    → timers id pending (xs ++ ys) ≡ timers id pending xs + timers id pending ys
unfolding timers
timers-append id pending [] ys = omega arith
timers-append id pending (x ∷ xs) ys = omega (arith, timers-append id pending xs ys)

-- Another map that gives each check no more, or the same.
pub timers-le :
    (id : ℕ) (p q : JsMap Text ℕ) (xs : List Check)
    → ((tx_hash : Text) (f : Phase) → finds id q tx_hash f ≤ finds id p tx_hash f)
    → timers id q xs ≤ timers id p xs
unfolding timers
timers-le id p q [] h = omega arith
timers-le id p q (x ∷ xs) h = omega (arith, h x.tx_hash x.phase, timers-le id p q xs h)

pub timers-same :
    (id : ℕ) (p q : JsMap Text ℕ) (xs : List Check)
    → All (λ c. finds id q c.tx_hash c.phase ≡ finds id p c.tx_hash c.phase) xs
    → timers id q xs ≡ timers id p xs
unfolding timers
timers-same id p q [] h = refl
timers-same id p q (x ∷ xs) (same, h) = omega (arith, same, timers-same id p q xs h)
