-- ===== src/GlobalRpcRateLimiter/Rate.antt =====
-- How much the bucket lets through.
use native.Mathlib.Nat.{mul-add}
use mathlib.Core.Path.{subst}
use liquid_bot.Prelude.{
  ℕ, ap, sym, ◌+◌, ◌-◌, ◌*◌, ◌≤◌, ◌≡◌, refl, ◌==◌, Option, none, some, List, [], ◌∷◌, arith, ltb,
  leb, if◌then◌else◌, Bool-cases, inl, inr,
}
use liquid_bot.GlobalRpcRateLimiter.{
  Limits, Limiter, full, create, try_acquire, Waiting, Outcome, granted, dropped, sleeping,
  loop_head, acquire, wake, refill, backed_off,
}

-- What an outcome lets through.
abbrev pub let_through : Outcome → ℕ
let_through (granted cost) = cost
let_through dropped = 0
let_through (sleeping w) = 0

-- A call takes from the bucket what it lets through, and leaves the clock.
abbrev Pays : Limiter → Limiter × Outcome → Type 0
Pays l r =
    (r.0.tokens + let_through r.1 * 1000 ≡ l.tokens) × (r.0.last_refill_time ≡ l.last_refill_time)

loop_head-Pays : (now : ℕ) (w : Waiting) (l : Limiter) → Pays l (loop_head now w l)
unfolding loop_head
loop_head-Pays now w l = elim (Bool-cases (ltb (now - w.start_time) w.max_wait_ms)) [
  | inl y ↦ rw (y, if◌then◌else◌) (omega arith, refl)
  | inr n ↦ rw (n, if◌then◌else◌) (omega arith, refl)
]

acquire-Pays :
    (now cost : ℕ) (timeout_ms : Option ℕ) (l : Limiter) → Pays l (acquire now cost timeout_ms l)
unfolding acquire try_acquire
acquire-Pays now cost none l = elim (Bool-cases (leb (cost * 1000) l.tokens)) [
  | inl y ↦ rw (y, try_acquire) (ground arith, refl)
  | inr n ↦ rw (n, try_acquire) (omega arith, refl)
]
acquire-Pays now cost (some timeout) l = elim (Bool-cases (leb (cost * 1000) l.tokens)) [
  | inl y ↦ rw (y, try_acquire) (ground arith, refl)
  | inr n ↦ elim (Bool-cases (timeout == 0)) [
    | inl z ↦ rw (n, try_acquire) (rw (z, if◌then◌else◌) (omega arith, refl))
    | inr z ↦
        rw (n, try_acquire)
          (rw (z, if◌then◌else◌)
            (loop_head-Pays now
              (record { cost = cost; start_time = now; max_wait_ms = timeout; wait_ms = 10 })
              (record l { total_waits = l.total_waits + 1 })))
  ]
]

wake-Pays : (now : ℕ) (w : Waiting) (l : Limiter) → Pays l (wake now w l)
unfolding wake try_acquire
wake-Pays now w l = elim (Bool-cases (leb (w.cost * 1000) l.tokens)) [
  | inl y ↦ rw (y, try_acquire) (ground arith, refl)
  | inr n ↦ rw (n, try_acquire) (loop_head-Pays now (backed_off w) l)
]

-- What happens to a limiter, in whatever order.
pub data Event : Type 0 where
  acquires : ℕ → ℕ → Option ℕ → Event
  wakes : ℕ → Waiting → Event
  refills : ℕ → Event

unfoldable pub event : Limits → Event → Limiter → Limiter × ℕ
event c (acquires now cost timeout_ms) l =
    let (m, o) = acquire now cost timeout_ms l in (m, let_through o)
event c (wakes now w) l = let (m, o) = wake now w l in (m, let_through o)
event c (refills now) l = (refill c now l, 0)

-- The limiter after the events, and all that they let through.
unfoldable pub run : Limits → List Event → Limiter → Limiter × ℕ
unfolding event
run c [] l = (l, 0)
run c (e ∷ events) l =
    let (m, paid) = event c e l in let (n, total) = run c events m in (n, paid + total)

-- The refills come in the order of their times, which start with that of the limiter.
abbrev pub IsTimed : ℕ → List Event → Type 0
IsTimed last [] = Unit {0}
IsTimed last (acquires now cost timeout_ms ∷ events) = IsTimed last events
IsTimed last (wakes now w ∷ events) = IsTimed last events
IsTimed last (refills now ∷ events) = (last ≤ now) × IsTimed now events

-- Both sides with the tokens: never more than the capacity, and never more than the clock allows.
abbrev Bounded : Limits → Limiter → Limiter × ℕ → Type 0
Bounded c l r =
    (r.0.tokens ≤ full c)
    × (r.1 * 1000 + r.0.tokens + c.rate_limit * l.last_refill_time
        ≤ l.tokens + c.rate_limit * r.0.last_refill_time)

-- What leaves the tokens and pays for what it lets through.
pays-Bounded :
    (c : Limits) (l : Limiter) (m : Limiter) (paid : ℕ) (r : Limiter × ℕ)
    → m.tokens + paid * 1000 ≡ l.tokens
    → m.last_refill_time ≡ l.last_refill_time
    → Bounded c m r
    → Bounded c l (r.0, paid + r.1)
pays-Bounded c l m paid r t same (b, h) = (b, omega (arith, t, h, ap (λ n. c.rate_limit * n) same))

refill-Bounded :
    (c : Limits) (now : ℕ) (l : Limiter) (r : Limiter × ℕ)
    → l.last_refill_time ≤ now
    → Bounded c (refill c now l) r
    → Bounded c l (r.0, 0 + r.1)
unfolding refill
refill-Bounded c now l r later (b, h) = (
  b,
  omega (
    arith,
    h,
    mul-add c.rate_limit l.last_refill_time (now - l.last_refill_time),
    ap (λ n. c.rate_limit * n) (grown l.last_refill_time now later),
  ),
)
  where
    grown : (a b : ℕ) → a ≤ b → a + (b - a) ≡ b
    grown a b h = omega (arith, h)

refilled_le : (c : Limits) (now : ℕ) (l : Limiter) → (refill c now l).tokens ≤ full c
unfolding refill
refilled_le c now l = omega arith

run-Bounded :
    (c : Limits) (events : List Event) (l : Limiter)
    → IsTimed l.last_refill_time events
    → l.tokens ≤ full c
    → Bounded c l (run c events l)
unfolding run event refill
run-Bounded c [] l timed small = (small, omega arith)
run-Bounded c (acquires now cost timeout_ms ∷ events) l timed small =
    let (t, same) = acquire-Pays now cost timeout_ms l in
    let m = (acquire now cost timeout_ms l).0 in
    pays-Bounded c l m (let_through (acquire now cost timeout_ms l).1) (run c events m) t same (
      run-Bounded c events m (subst (λ n. IsTimed n events) (sym same) timed)
        (omega (arith, t, small)))
run-Bounded c (wakes now w ∷ events) l timed small =
    let (t, same) = wake-Pays now w l in
    let m = (wake now w l).0 in
    pays-Bounded c l m (let_through (wake now w l).1) (run c events m) t same (
      run-Bounded c events m (subst (λ n. IsTimed n events) (sym same) timed)
        (omega (arith, t, small)))
run-Bounded c (refills now ∷ events) l timed small =
    refill-Bounded c now l (run c events (refill c now l)) timed.0
      (run-Bounded c events (refill c now l) timed.1 (refilled_le c now l))

-- Whatever calls, ends of sleeps and refills follow the construction, in whatever order with the
-- refills in the order of their times, the calls let through are at most the burst capacity and the
-- rate for the time from the construction to the last refill; and the tokens never exceed the
-- capacity.
pub run-create-le :
    (c : Limits) (events : List Event) (now : ℕ)
    → IsTimed now events
    → ((run c events (create c now)).0.tokens ≤ full c)
      × ((run c events (create c now)).1 * 1000 + c.rate_limit * now
          ≤ full c + c.rate_limit * (run c events (create c now)).0.last_refill_time)
unfolding create
run-create-le c events now timed =
    let (b, h) = run-Bounded c events (create c now) timed (omega arith) in (b, omega (arith, h))
