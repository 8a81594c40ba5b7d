-- ===== src/GlobalRpcRateLimiter/Waits.antt =====
-- A call that waits comes to an end.
use liquid_bot.Prelude.{
  ℕ, ◌+◌, ◌-◌, ◌*◌, ◌≤◌, ◌≡◌, refl, ◌==◌, Bool, true, false, some, List, [], ◌∷◌, arith, ltb, leb,
  length, if◌then◌else◌, Bool-cases, inl, inr,
}
use liquid_bot.GlobalRpcRateLimiter.{
  Limiter, try_acquire, Waiting, Outcome, granted, dropped, sleeping, loop_head, acquire, wake,
  backed_off,
}

abbrev pub is_settled : Outcome → Bool
is_settled (granted cost) = true
is_settled dropped = true
is_settled (sleeping w) = false

-- The ends of the sleeps, each with its time and the limiter that it finds.
unfoldable pub settle : Outcome → List (ℕ × Limiter) → Outcome
settle (granted cost) ends = granted cost
settle dropped ends = dropped
settle (sleeping w) [] = sleeping w
settle (sleeping w) ((now, l) ∷ ends) = settle (wake now w l).1 ends

-- No sleep is shorter than asked for.
abbrev pub AreOnTime : ℕ → Waiting → List (ℕ × Limiter) → Type 0
AreOnTime before w [] = Unit {0}
AreOnTime before w ((now, l) ∷ ends) =
    (before + w.wait_ms ≤ now) × AreOnTime now (backed_off w) ends

settle-wake :
    (now : ℕ) (w : Waiting) (l : Limiter) (ends : List (ℕ × Limiter))
    → is_settled (settle (loop_head now (backed_off w) l).1 ends) ≡ true
    → is_settled (settle (wake now w l).1 ends) ≡ true
unfolding settle wake try_acquire
settle-wake now w l ends h = elim (Bool-cases (leb (w.cost * 1000) l.tokens)) [
  | inl t ↦ rw (t, try_acquire) refl
  | inr f ↦ rw (f, try_acquire) h
]

settle-loop_head :
    (before : ℕ) (w : Waiting) (l : Limiter) (ends : List (ℕ × Limiter))
    → 10 ≤ w.wait_ms
    → w.start_time ≤ before
    → AreOnTime before w ends
    → w.max_wait_ms ≤ before - w.start_time + 10 * length ends
    → is_settled (settle (loop_head before w l).1 ends) ≡ true
unfolding settle loop_head
settle-loop_head before w l [] long started on_time enough =
    elim (Bool-cases (ltb (before - w.start_time) w.max_wait_ms)) [
      | inr n ↦ rw (n, loop_head) refl
      | inl y ↦ absurd (ground arith)
    ]
settle-loop_head before w l ((now, m) ∷ ends) long started on_time enough =
    elim (Bool-cases (ltb (before - w.start_time) w.max_wait_ms)) [
      | inr n ↦ rw (n, loop_head) refl
      | inl y ↦
          rw (y, loop_head)
            (settle-wake now w m ends (
              settle-loop_head now (backed_off w) m ends (omega (arith, long))
                (omega (arith, started, on_time.0)) on_time.1
                (omega (arith, enough, on_time.0, long, started))))
    ]

-- A call of `acquire` with a time limit is granted or dropped after at most a tenth as many sleeps
-- as the limit has milliseconds, whatever the limiter holds at each end of a sleep, if no sleep is
-- shorter than asked for.
pub acquire-settle :
    (now cost timeout : ℕ) (l : Limiter) (ends : List (ℕ × Limiter))
    → AreOnTime now
        (record { cost = cost; start_time = now; max_wait_ms = timeout; wait_ms = 10 })
        ends
    → timeout ≤ 10 * length ends
    → is_settled (settle (acquire now cost (some timeout) l).1 ends) ≡ true
unfolding acquire try_acquire settle
acquire-settle now cost timeout l ends on_time enough =
    elim (Bool-cases (leb (cost * 1000) l.tokens)) [
      | inl y ↦ rw (y, try_acquire) refl
      | inr n ↦ elim (Bool-cases (timeout == 0)) [
        | inl z ↦ rw (n, try_acquire) (rw (z, if◌then◌else◌) refl)
        | inr z ↦
            rw (n, try_acquire)
              (rw (z, if◌then◌else◌)
                (settle-loop_head now
                  (record { cost = cost; start_time = now; max_wait_ms = timeout; wait_ms = 10 })
                  (record l { total_waits = l.total_waits + 1 }) ends (omega arith) (omega arith)
                  on_time (omega (arith, enough))))
      ]
    ]
