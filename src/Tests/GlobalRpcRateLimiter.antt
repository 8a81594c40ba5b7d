-- ===== src/Tests/GlobalRpcRateLimiter.antt =====
-- A limiter of two calls a second with a burst of one.
use liquid_bot.Prelude.{ℕ, ◌+◌, ◌*◌, ◌≤◌, ◌≡◌, refl, true, none, some, List, [], ◌∷◌, arith}
use liquid_bot.GlobalRpcRateLimiter.{
  Limits, Limiter, full, create, try_acquire, Waiting, dropped, loop_head, acquire, wake, refill,
  reset,
}
use liquid_bot.GlobalRpcRateLimiter.Rate.{
  acquires, wakes, refills, Event, event, run, run-create-le,
}
use liquid_bot.GlobalRpcRateLimiter.Waits.{is_settled, settle, acquire-settle}

program : Unit {0}
unfolding create try_acquire loop_head acquire wake refill reset event run settle
program = tt

abbrev limits : Limits
limits = record { rate_limit = 2; burst_capacity = 1 }

abbrev asleep : Waiting
asleep = record { cost = 1; start_time = 1000; max_wait_ms = 600; wait_ms = 10 }

abbrev events : List Event
events =
    acquires 1000 1 none
    ∷ acquires 1000 1 (some 600)
    ∷ refills 1100
    ∷ wakes 1100 asleep
    ∷ refills 1600
    ∷ wakes 1610 asleep
    ∷ []

two_calls : (run limits events (create limits 1000)).1 ≡ 2
unfolding program
two_calls = refl

no_limit : (acquire 1000 2 none (create limits 1000)).1 ≡ dropped
unfolding program
no_limit = refl

-- The theorems at this input.
run-create-le_example :
    ((run limits events (create limits 1000)).0.tokens ≤ full limits)
    × ((run limits events (create limits 1000)).1 * 1000 + limits.rate_limit * 1000
        ≤ full limits
          + limits.rate_limit * (run limits events (create limits 1000)).0.last_refill_time)
run-create-le_example = run-create-le limits events 1000 (omega arith, (omega arith, tt))

abbrev ends : List (ℕ × Limiter)
ends = (1010, create limits 0) ∷ (1030, create limits 0) ∷ []

acquire-settle_example :
    is_settled (settle (acquire 1000 5 (some 20) (create limits 1000)).1 ends) ≡ true
acquire-settle_example =
    acquire-settle 1000 5 20 (create limits 1000) ends (omega arith, (omega arith, tt))
      (omega arith)
