-- ===== src/PredictiveBudgetTracker/Overlap.antt =====
-- `evaluateOnSignal` of backend/src/risk/PredictiveOrchestrator.ts: a signal has users chosen, waits for
-- their evaluation, and records them then. Other signals may come while it waits.
use native.Mathlib.Nat.{mul-le-mul_right}
use liquid_bot.Prelude.{
  ℕ, zero, suc, ◌+◌, ◌*◌, ◌≤◌, ◌<◌, ◌≡◌, refl, ap, ◌∙◌, Bool, true, false, Option, none, some, List,
  [], ◌∷◌, arith, length, All, if◌then◌else◌, Bool-cases, inl, inr,
}
use liquid_bot.Prelude.Text.{Text, text_key, truthy}
use liquid_bot.PredictiveBudgetTracker.{
  BudgetConfig, BudgetTracker, start_tick, asset_count, record_users_evaluated, RatedUser, room,
  downsample_to_fit,
}
use liquid_bot.PredictiveBudgetTracker.Caps.{
  length-downsample-le, start_tick-count, record-count_same, record-count_other,
}

-- A signal for an asset at a time, with the users that the deduplication has left.
pub record Signal : Type 0 where
  pub now : ℕ
  pub symbol : Text
  pub users : List RatedUser

-- An evaluation that is not recorded yet.
pub record Pending : Type 0 where
  pub symbol : Text
  pub count : ℕ

pub record World : Type 0 where
  pub tracker : BudgetTracker
  pub pending : List Pending

-- A signal that passed its gate, or the end, without an error, of the evaluation at a place.
pub data Event : Type 0 where
  arrives : Signal → Event
  finishes : ℕ → Event

-- What a signal does before it waits, with the users to evaluate.
unfoldable pub choose_users : BudgetConfig → Signal → BudgetTracker → BudgetTracker × List RatedUser
choose_users c signal t =
    let ticked = start_tick signal.now t in
    (ticked, downsample_to_fit c signal.users (some signal.symbol) ticked)

-- Without users the signal ends; otherwise it waits.
unfoldable pub wait_for : Text → BudgetTracker × List RatedUser → World → World
wait_for symbol (ticked, []) w = record w { tracker = ticked }
wait_for symbol (ticked, u ∷ us) w = record {
  tracker = ticked;
  pending = record { symbol = symbol; count = length (u ∷ us) } ∷ w.pending;
}

unfoldable pub on_signal : BudgetConfig → Signal → World → World
unfolding wait_for
on_signal c signal w = wait_for signal.symbol (choose_users c signal w.tracker) w

-- The element at a place, and the others.
unfoldable pub take_out : ℕ → List Pending → Option (Pending × List Pending)
take_out i [] = none
take_out zero (p ∷ ps) = some (p, ps)
take_out (suc i) (p ∷ ps) = elim (take_out i ps) [
  | none ↦ none
  | some (q, rest) ↦ some (q, p ∷ rest)
]

-- What a signal does after its evaluation.
unfoldable pub record_end : BudgetConfig → World → Option (Pending × List Pending) → World
record_end c w none = w
record_end c w (some (p, rest)) = record {
  tracker = record_users_evaluated c p.count (some p.symbol) w.tracker;
  pending = rest;
}

unfoldable pub on_end : BudgetConfig → ℕ → World → World
unfolding record_end
on_end c i w = record_end c w (take_out i w.pending)

unfoldable pub step : BudgetConfig → Event → World → World
unfolding on_signal on_end
step c (arrives signal) w = on_signal c signal w
step c (finishes i) w = on_end c i w

-- The users that an event has evaluated for an asset.
unfoldable pub evaluated_at : BudgetConfig → Text → Event → World → ℕ
evaluated_at c asset (arrives signal) w =
    if text_key.beq signal.symbol asset then length (choose_users c signal w.tracker).1 else 0
evaluated_at c asset (finishes i) w = 0

unfoldable pub evaluated : BudgetConfig → Text → List Event → World → ℕ
unfolding evaluated_at step
evaluated c asset [] w = 0
evaluated c asset (e ∷ events) w = evaluated_at c asset e w + evaluated c asset events (step c e w)

-- How many evaluations for an asset wait.
unfoldable pub waiting : Text → List Pending → ℕ
waiting asset [] = 0
waiting asset (p ∷ ps) = (if text_key.beq p.symbol asset then 1 else 0) + waiting asset ps

-- No more than so many evaluations for the asset overlap.
abbrev pub OverlapAtMost : ℕ → BudgetConfig → Text → List Event → World → Type 0
OverlapAtMost most c asset [] w = Unit
OverlapAtMost most c asset (e ∷ events) w =
    (waiting asset (step c e w).pending ≤ most) × OverlapAtMost most c asset events (step c e w)

-- The users of an evaluation that are for the asset.
abbrev weight : Text → Pending → ℕ
weight asset p = if text_key.beq p.symbol asset then p.count else 0

unfoldable weights : Text → List Pending → ℕ
weights asset [] = 0
weights asset (p ∷ ps) = weight asset p + weights asset ps

room_for_one : (n k size : ℕ) → n < k → size + n * size ≤ k * size
room_for_one n zero size h = absurd (omega (arith, h))
room_for_one n (suc k) size h =
    let le : n * size ≤ k * size = mul-le-mul_right size (omega (arith, h)) in omega (arith, le)

weights-le :
    (asset : Text) (cap : ℕ) (ps : List Pending)
    → All (λ p. weight asset p ≤ cap) ps
    → weights asset ps ≤ waiting asset ps * cap
unfolding weights waiting
weights-le asset cap [] h = omega arith
weights-le asset cap (p ∷ ps) (x, h) =
    let rest = weights-le asset cap ps h in
    elim (Bool-cases (text_key.beq p.symbol asset)) [
      | inl y ↦ let x' : p.count ≤ cap = rw y at x in rw y (omega (arith, x', rest))
      | inr n ↦ rw n (omega (arith, rest))
    ]

-- What is taken out goes over to the rest.
abbrev Splits : Text → ℕ → List Pending → Option (Pending × List Pending) → Type 0
Splits asset cap ps none = Unit
Splits asset cap ps (some (p, rest)) =
    (weights asset ps ≡ weight asset p + weights asset rest) × All (λ q. weight asset q ≤ cap) rest

take_out-Splits :
    (asset : Text) (cap i : ℕ) (ps : List Pending)
    → All (λ q. weight asset q ≤ cap) ps
    → Splits asset cap ps (take_out i ps)
unfolding take_out weights
take_out-Splits asset cap i [] h = tt
take_out-Splits asset cap zero (q ∷ ps) (x, h) = (refl, h)
take_out-Splits asset cap (suc i) (q ∷ ps) (x, h) =
    behind (take_out i ps) (take_out-Splits asset cap i ps h)
  where
    behind :
        (o : Option (Pending × List Pending))
        → Splits asset cap ps o
        → Splits asset cap (q ∷ ps) (elim o [ none ↦ none | some (p, rest) ↦ some (p, q ∷ rest) ])
    behind none s = tt
    behind (some (p, rest)) (sum, small) = (omega (arith, sum), (x, small))

-- The users counted for the asset, and those whose evaluation waits.
abbrev total : Text → World → ℕ
total asset w = asset_count asset w.tracker + weights asset w.pending

record IsWithin (most : ℕ) (c : BudgetConfig) (asset : Text) (w : World) : Type 0 where
  capped : total asset w ≤ most * c.max_users_per_signal_per_asset
  small : All (λ p. weight asset p ≤ c.max_users_per_signal_per_asset) w.pending

-- A step moves the total by the users that it has evaluated, and stays within.
abbrev Goes : ℕ → BudgetConfig → Text → ℕ → World → World → Type 0
Goes most c asset n w v = (total asset v ≡ total asset w + n) × IsWithin most c asset v

record-weight :
    (c : BudgetConfig) (asset : Text) (p : Pending) (t : BudgetTracker)
    → truthy asset ≡ true
    → asset_count asset (record_users_evaluated c p.count (some p.symbol) t)
      ≡ asset_count asset t + weight asset p
record-weight c asset p t full = elim (Bool-cases (text_key.beq p.symbol asset)) [
  | inr n ↦ rw n (omega (arith, record-count_other c p.count p.symbol asset t n))
  | inl y ↦
      let here : p.symbol ≡ asset = (text_key.beq_iff p.symbol asset).0 y in
      let u = record_users_evaluated c p.count (some p.symbol) t in
      let before = ap (λ a. asset_count a t) here in
      let after = ap (λ a. asset_count a u) here in
      let more = record-count_same c p.count p.symbol t (ap truthy here ∙ full) in
      rw y (omega (arith, before, after, more))
]

record_end-Goes :
    (most : ℕ) (c : BudgetConfig) (asset : Text) (w : World) (o : Option (Pending × List Pending))
    → truthy asset ≡ true
    → IsWithin most c asset w
    → Splits asset c.max_users_per_signal_per_asset w.pending o
    → Goes most c asset 0 w (record_end c w o)
unfolding record_end
record_end-Goes most c asset w none full b s = (omega arith, b)
record_end-Goes most c asset w (some (p, rest)) full b (sum, small) =
    let bound = b.capped in
    let more = record-weight c asset p w.tracker full in
    (omega (arith, more, sum), record { capped = omega (arith, more, sum, bound); small = small })

-- Users are chosen only where the count has room for them.
choose_users-fits :
    (c : BudgetConfig) (signal : Signal) (t : BudgetTracker)
    → truthy signal.symbol ≡ true
    → 0 < length (choose_users c signal t).1
    → asset_count signal.symbol t + length (choose_users c signal t).1
      ≤ c.max_users_per_signal_per_asset
unfolding choose_users room
choose_users-fits c signal t full some_users =
    let ticked = start_tick signal.now t in
    let same = start_tick-count signal.now signal.symbol t in
    let fits = length-downsample-le c signal.users (some signal.symbol) ticked in
    ground (arith, same, full, fits, some_users)

choose_users-count :
    (c : BudgetConfig) (signal : Signal) (asset : Text) (t : BudgetTracker)
    → asset_count asset (choose_users c signal t).0 ≡ asset_count asset t
unfolding choose_users
choose_users-count c signal asset t = start_tick-count signal.now asset t

wait_for-Goes :
    (most : ℕ) (c : BudgetConfig) (asset symbol : Text) (w : World) (ticked : BudgetTracker)
    (chosen : List RatedUser)
    → asset_count asset ticked ≡ asset_count asset w.tracker
    → (text_key.beq symbol asset ≡ true
        → 0 < length chosen
        → asset_count asset w.tracker + length chosen ≤ c.max_users_per_signal_per_asset)
    → waiting asset (wait_for symbol (ticked, chosen) w).pending ≤ most
    → IsWithin most c asset w
    → Goes most c asset
        (if text_key.beq symbol asset then length chosen else 0)
        w
        (wait_for symbol (ticked, chosen) w)
unfolding wait_for weights waiting
wait_for-Goes most c asset symbol w ticked [] same fits few b =
    let bound = b.capped in
    let nobody = no_weight (text_key.beq symbol asset) in
    (omega (arith, same, nobody), record { capped = omega (arith, same, bound); small = b.small })
  where
    no_weight : (x : Bool) → (if x then zero else zero) ≡ zero
    no_weight true = refl
    no_weight false = refl
wait_for-Goes most c asset symbol w ticked (u ∷ us) same fits few b =
    let (within, light) = weighed (text_key.beq symbol asset) refl in
    (omega (arith, same), record { capped = omega (arith, same, within); small = (light, b.small) })
  where
    n : ℕ
    n = length (u ∷ us)

    weighed :
        (x : Bool)
        → text_key.beq symbol asset ≡ x
        → (asset_count asset w.tracker + ((if x then n else 0) + weights asset w.pending)
            ≤ most * c.max_users_per_signal_per_asset)
          × ((if x then n else 0) ≤ c.max_users_per_signal_per_asset)
    weighed false d = let bound = b.capped in (omega (arith, bound), omega arith)
    weighed true y =
        let limit = c.max_users_per_signal_per_asset in
        let fits' = fits y (omega arith) in
        let sum = weights-le asset limit w.pending b.small in
        let few' : 1 + waiting asset w.pending ≤ most = rw y at few in
        let space = room_for_one (waiting asset w.pending) most limit (omega (arith, few')) in
        (omega (arith, fits', sum, space), omega (arith, fits'))

on_signal-Goes :
    (most : ℕ) (c : BudgetConfig) (asset : Text) (w : World) (signal : Signal)
    → truthy asset ≡ true
    → waiting asset (on_signal c signal w).pending ≤ most
    → IsWithin most c asset w
    → Goes most c asset (evaluated_at c asset (arrives signal) w) w (on_signal c signal w)
unfolding on_signal evaluated_at
on_signal-Goes most c asset w signal full few b =
    let (ticked, chosen) = choose_users c signal w.tracker in
    wait_for-Goes most c asset signal.symbol w ticked chosen same fits few b
  where
    same : asset_count asset (choose_users c signal w.tracker).0 ≡ asset_count asset w.tracker
    same = choose_users-count c signal asset w.tracker

    fits :
        text_key.beq signal.symbol asset ≡ true
        → 0 < length (choose_users c signal w.tracker).1
        → asset_count asset w.tracker + length (choose_users c signal w.tracker).1
          ≤ c.max_users_per_signal_per_asset
    fits y some_users =
        let here : signal.symbol ≡ asset = (text_key.beq_iff signal.symbol asset).0 y in
        let count = ap (λ a. asset_count a w.tracker) here in
        let room_left = choose_users-fits c signal w.tracker (ap truthy here ∙ full) some_users in
        omega (arith, count, room_left)

-- The whole run from a world within the bounds.
run-within :
    (most : ℕ) (c : BudgetConfig) (asset : Text) (events : List Event) (w : World)
    → truthy asset ≡ true
    → IsWithin most c asset w
    → OverlapAtMost most c asset events w
    → total asset w + evaluated c asset events w ≤ most * c.max_users_per_signal_per_asset
unfolding evaluated step on_end evaluated_at
run-within most c asset [] w full b h = let bound = b.capped in omega (arith, bound)
run-within most c asset (e ∷ events) w full b (few, h) =
    let (moved, next) = one e few in
    let rest = run-within most c asset events (step c e w) full next h in omega (arith, moved, rest)
  where
    one :
        (x : Event)
        → waiting asset (step c x w).pending ≤ most
        → Goes most c asset (evaluated_at c asset x w) w (step c x w)
    one (arrives signal) few = on_signal-Goes most c asset w signal full few b
    one (finishes i) few =
        record_end-Goes most c asset w (take_out i w.pending) full b
          (take_out-Splits asset c.max_users_per_signal_per_asset i w.pending b.small)

-- Nothing resets the counts of the assets between signals. If no evaluation fails, nothing waits at
-- the start and the count of an asset that is not the empty string is within the cap of one signal,
-- then, however many signals come and however far apart, the users evaluated for it and those counted
-- before are together at most so many times this cap as evaluations for it overlap at once. With one
-- at a time all signals together have the cap of one.
pub evaluated-le :
    (most : ℕ) (c : BudgetConfig) (asset : Text) (events : List Event) (t : BudgetTracker)
    → 0 < most
    → truthy asset ≡ true
    → asset_count asset t ≤ c.max_users_per_signal_per_asset
    → OverlapAtMost most c asset events (record { tracker = t; pending = [] })
    → asset_count asset t + evaluated c asset events (record { tracker = t; pending = [] })
      ≤ most * c.max_users_per_signal_per_asset
unfolding weights
evaluated-le most c asset events t pos full below h =
    let space = room_for_one 0 most c.max_users_per_signal_per_asset pos in
    let whole =
      run-within most c asset events (record { tracker = t; pending = [] }) full
        (record { capped = omega (arith, below, space); small = tt }) h in
    omega (arith, whole)
