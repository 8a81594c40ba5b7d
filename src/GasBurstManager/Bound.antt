-- ===== src/GasBurstManager/Bound.antt =====
-- How often a transaction is replaced, whatever the order in which checks go on.
use liquid_bot.Prelude.{
  ℕ, ◌≤◌, ◌≡◌, refl, ap, ◌∙◌, Bool, List, [], arith, if◌then◌else◌, nat_eq, Bool-cases, inl, inr,
}
use liquid_bot.Prelude.Text.{text_key}
use liquid_bot.JsMap
use liquid_bot.JsMap.{JsMap}
use liquid_bot.GasBurstManager.{
  PendingTransaction, GasBurstManager, Check, checks_of, track, confirm_transaction, clear_tracking,
  create,
}
use liquid_bot.GasBurstManager.Counts.{
  World, Step, tracks, goes_on, confirms, clears, Reach, here, next, bumps, holders, timers,
}
use liquid_bot.GasBurstManager.Moves.{resume-Moves}
use liquid_bot.GasBurstManager.Bounded.{most_bumps, IsBounded, tracked, Step-IsBounded}

track-most :
    (tx : PendingTransaction) (m : GasBurstManager) → (track tx m).0.max_bumps ≡ m.max_bumps
unfolding track
track-most tx m = elim (Bool-cases m.enabled) [
  | inl on ↦ ap (λ b. (choose b).0.max_bumps) on
  | inr off ↦ ap (λ b. (choose b).0.max_bumps) off
]
  where
    choose : Bool → GasBurstManager × List Check
    choose b = if b then (tracked tx m, checks_of tx.tx_hash) else (m, [])

Step-most : (w : World) {v : World} → Step w v → v.manager.max_bumps ≡ w.manager.max_bumps
unfolding confirm_transaction clear_tracking
Step-most w (tracks tx free) = track-most tx w.manager
Step-most w (goes_on before after c r split) =
    let moves = resume-Moves 0 c c.phase r w.manager in moves.most
Step-most w (confirms tx_hash) = refl
Step-most w clears = refl

Reach-IsBounded :
    (id : ℕ) (w : World) {v : World}
    → Reach w v
    → IsBounded id w
    → IsBounded id v × (v.manager.max_bumps ≡ w.manager.max_bumps)
Reach-IsBounded id w here b = (b, refl)
Reach-IsBounded id w (next {u} r s) b =
    let (before, same) = Reach-IsBounded id w r b in
    (Step-IsBounded id u s before, Step-most u s ∙ same)

abbrev pub start : Bool → ℕ → ℕ → ℕ → World
start enabled first_pct second_pct max_bumps = record {
  manager = create enabled first_pct second_pct max_bumps;
  checks = [];
}

-- From the start, in whatever order callers track, confirm and clear and checks go on, whatever the
-- network answers, and when no hash is tracked again while a check for it waits: a transaction is
-- never replaced if the maximum is 0, and twice at most otherwise.
pub Reach-bumps-le :
    (id : ℕ) (enabled : Bool) (first_pct second_pct max_bumps : ℕ) {w : World}
    → Reach (start enabled first_pct second_pct max_bumps) w
    → bumps id w.manager ≤ most_bumps max_bumps
unfolding create bumps JsMap.get holders timers
Reach-bumps-le id enabled first_pct second_pct max_bumps r =
    let (b, same) = Reach-IsBounded id (start enabled first_pct second_pct max_bumps) r nothing in
    let cap = b.capped in let limit = ap most_bumps same in omega (arith, cap, limit)
  where
    nothing : IsBounded id (start enabled first_pct second_pct max_bumps)
    nothing = record { unused = λ h. refl; twice = omega arith; capped = omega arith }
