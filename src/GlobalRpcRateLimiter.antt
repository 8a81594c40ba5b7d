-- ===== src/GlobalRpcRateLimiter.antt =====
-- backend/src/services/GlobalRpcRateLimiter.ts: the token bucket. Tokens are counted in
-- thousandths, so that a refill is exact. A call of `acquire` that waits is a value that each end
-- of its sleep takes a step further; other calls and refills may come between. Refills are at or
-- after the last one. The timers, the log lines and the metrics are left out.
pub mod Rate
pub mod Waits
use liquid_bot.Prelude.{
  ℕ, ◌+◌, ◌-◌, ◌*◌, ◌==◌, Bool, true, false, Option, none, some, List, [], ◌∷◌, min, ltb, leb,
  if◌then◌else◌,
}

-- The limits, in calls per second and in calls.
pub record Limits : Type 0 where
  pub rate_limit : ℕ
  pub burst_capacity : ℕ

pub record Limiter : Type 0 where
  pub tokens : ℕ
  pub last_refill_time : ℕ
  pub total_waits : ℕ
  pub total_drops : ℕ

abbrev pub full : Limits → ℕ
full c = c.burst_capacity * 1000

unfoldable pub create : Limits → ℕ → Limiter
create c now = record { tokens = full c; last_refill_time = now; total_waits = 0; total_drops = 0 }

unfoldable pub try_acquire : ℕ → Limiter → Limiter × Bool
try_acquire cost l =
    if leb (cost * 1000) l.tokens
    then (record l { tokens = l.tokens - cost * 1000 }, true)
    else (l, false)

-- A call that sleeps.
pub record Waiting : Type 0 where
  pub cost : ℕ
  pub start_time : ℕ
  pub max_wait_ms : ℕ
  pub wait_ms : ℕ

pub data Outcome : Type 0 where
  granted : ℕ → Outcome
  dropped : Outcome
  sleeping : Waiting → Outcome

abbrev pub drop_request : Limiter → Limiter
drop_request l = record l { total_drops = l.total_drops + 1 }

-- The test of the loop, and the drop behind it.
unfoldable pub loop_head : ℕ → Waiting → Limiter → Limiter × Outcome
loop_head now w l =
    if ltb (now - w.start_time) w.max_wait_ms then (l, sleeping w) else (drop_request l, dropped)

-- `acquire`, up to the first sleep.
unfoldable pub acquire : ℕ → ℕ → Option ℕ → Limiter → Limiter × Outcome
unfolding try_acquire loop_head
acquire now cost timeout_ms l =
    let (m, taken) = try_acquire cost l in
    if taken then (m, granted cost) else elim timeout_ms [
      | none ↦ (drop_request m, dropped)
      | some timeout ↦
          if timeout == 0
          then (drop_request m, dropped)
          else loop_head now
              (record { cost = cost; start_time = now; max_wait_ms = timeout; wait_ms = 10 })
              (record m { total_waits = m.total_waits + 1 })
    ]

abbrev pub max_backoff_ms : ℕ
max_backoff_ms = 100

abbrev pub backed_off : Waiting → Waiting
backed_off w = record w { wait_ms = min (w.wait_ms * 2) max_backoff_ms }

-- The end of a sleep.
unfoldable pub wake : ℕ → Waiting → Limiter → Limiter × Outcome
unfolding try_acquire loop_head
wake now w l =
    let (m, taken) = try_acquire w.cost l in
    if taken then (m, granted w.cost) else loop_head now (backed_off w) m

unfoldable pub refill : Limits → ℕ → Limiter → Limiter
refill c now l = record l {
  tokens = min (l.tokens + c.rate_limit * (now - l.last_refill_time)) (full c);
  last_refill_time = now;
}

unfoldable pub reset : Limits → ℕ → Limiter → Limiter
unfolding create
reset c now l = create c now
