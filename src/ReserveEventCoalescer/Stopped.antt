-- ===== src/ReserveEventCoalescer/Stopped.antt =====
-- Calls and timers in any order, and the stop: every event that was accepted is emitted, once.
use liquid_bot.Prelude.{
  ℕ, ◌+◌, ◌≡◌, Bool, true, false, Option, List, [], ◌∷◌, ◌++◌, arith, inl, inr,
}
use liquid_bot.Prelude.Text.{Text, text_key}
use liquid_bot.JsMap.{Distinct}
use liquid_bot.ReserveEventCoalescer.{
  ReserveEvent, CoalescedBatch, Coalescer, flush_reserve_batch, flush_global_batch, add_event,
  flush_all, stop_coalescer, new_coalescer, pending_in, total_pending_events,
}
use liquid_bot.ReserveEventCoalescer.Totals.{
  emitted, Counts, Counts-then, Counts-same, accepted, add_event-Counts, flush_reserve_batch-Counts,
  flush_global_batch-Counts, flush_all-Counts,
}
use liquid_bot.ReserveEventCoalescer.Conserved.{
  Waits, IsKept, is_covered, flush_reserve_batch-IsKept, flush_global_batch-IsKept,
}
use liquid_bot.ReserveEventCoalescer.Accepted.{
  add_event-IsKept, add_event-accepts, IsKept-then, flush_all-IsKept,
}
use liquid_bot.ReserveEventCoalescer.Flushed.{not-Waits, total-stopped}

-- A call, a timer that fires, or the stop, with its time.
pub data Call : Type 0 where
  adds : ℕ → ReserveEvent → Call
  reserve_timer : ℕ → Text → Call
  global_timer : ℕ → Call
  flushes : ℕ → Call
  stops : ℕ → Call

unfoldable pub call : Call → Coalescer → Coalescer × List CoalescedBatch
call (adds now event) c = add_event now event c
call (reserve_timer now reserve) c = flush_reserve_batch now reserve c
call (global_timer now) c = flush_global_batch now c
call (flushes now) c = flush_all now c
call (stops now) c = stop_coalescer now c

unfoldable pub run : List Call → Coalescer → Coalescer × List CoalescedBatch
unfolding call
run [] c = (c, [])
run (x ∷ calls) c =
    let (next, batches) = call x c in
    let (final, later) = run calls next in (final, batches ++ later)

-- How many events the calls give to a coalescer that is not shutting down.
abbrev pub accepts : Call → Coalescer → ℕ
accepts (adds now event) c = accepted c
accepts (reserve_timer now reserve) c = 0
accepts (global_timer now) c = 0
accepts (flushes now) c = 0
accepts (stops now) c = 0

unfoldable pub all_accepted : List Call → Coalescer → ℕ
all_accepted [] c = 0
all_accepted (x ∷ calls) c = accepts x c + all_accepted calls (call x c).0

stop_coalescer-Counts :
    (now : ℕ) (c : Coalescer) → Distinct c.reserve_batches → Counts 0 c (stop_coalescer now c)
unfolding stop_coalescer total_pending_events
stop_coalescer-Counts now c d =
    let f = flush_all-Counts now (record c { is_shutting_down = true }) d in
    record { conserved = f.conserved; distinct = f.distinct }

call-Counts :
    (x : Call) (c : Coalescer) → Distinct c.reserve_batches → Counts (accepts x c) c (call x c)
unfolding call
call-Counts (adds now event) c d = add_event-Counts now event c d
call-Counts (reserve_timer now reserve) c d = flush_reserve_batch-Counts now reserve c d
call-Counts (global_timer now) c d = flush_global_batch-Counts now c d
call-Counts (flushes now) c d = flush_all-Counts now c d
call-Counts (stops now) c d = stop_coalescer-Counts now c d

run-Counts :
    (calls : List Call) (c : Coalescer)
    → Distinct c.reserve_batches
    → Counts (all_accepted calls c) c (run calls c)
unfolding run all_accepted
run-Counts [] c d = Counts-same c d
run-Counts (x ∷ calls) c d =
    let first = call-Counts x c d in
    let r = call x c in
    Counts-then (accepts x c) (all_accepted calls r.0) c r (run calls r.0) first
      (run-Counts calls r.0 first.distinct)

call-IsKept : (e : ReserveEvent) (x : Call) (c : Coalescer) → Waits e c → IsKept e (call x c)
unfolding call stop_coalescer
call-IsKept e (adds now event) c w = add_event-IsKept e now event c w
call-IsKept e (reserve_timer now reserve) c w = flush_reserve_batch-IsKept e now reserve c w
call-IsKept e (global_timer now) c w = flush_global_batch-IsKept e now c w
call-IsKept e (flushes now) c w = flush_all-IsKept e now c w
call-IsKept e (stops now) c w = flush_all-IsKept e now (record c { is_shutting_down = true }) w

run-IsKept :
    (e : ReserveEvent) (calls : List Call) (c : Coalescer) → Waits e c → IsKept e (run calls c)
unfolding run
run-IsKept e [] c w = inl w
run-IsKept e (x ∷ calls) c w =
    let r = call x c in
    IsKept-then e r (run calls r.0) (call-IsKept e x c w) (run-IsKept e calls r.0)

-- From a new coalescer, after any adds, timers, flushes and stops in any order, and a stop: the counts
-- of the batches emitted are together the number of events added while it was not shutting down.
pub emitted-run-stop :
    (window size : Option ℕ) (per_reserve : Option Bool) (calls : List Call) (now : ℕ)
    → emitted (
        (run calls (new_coalescer window size per_reserve)).1
        ++ (stop_coalescer now (run calls (new_coalescer window size per_reserve)).0).1)
      ≡ all_accepted calls (new_coalescer window size per_reserve)
unfolding new_coalescer total_pending_events pending_in
emitted-run-stop window size per_reserve calls now =
    let c = new_coalescer window size per_reserve in
    let r = run calls c in
    let first = run-Counts calls c tt in
    let last = stop_coalescer-Counts now r.0 first.distinct in
    let whole = Counts-then (all_accepted calls c) 0 c r (stop_coalescer now r.0) first last in
    let sum = whole.conserved in let left = total-stopped now r.0 in omega (arith, sum, left)

-- An event added to a coalescer that is not shutting down is covered: whatever calls and timers follow,
-- with a stop at last, a batch is emitted that has its reserve, in lower case, and a block number that
-- is not below its own.
pub is_covered-add-run-stop :
    (now last : ℕ) (event : ReserveEvent) (calls : List Call) (c : Coalescer)
    → c.is_shutting_down ≡ false
    → is_covered event (
        (add_event now event c).1
        ++ ((run calls (add_event now event c).0).1
            ++ (stop_coalescer last (run calls (add_event now event c).0).0).1))
      ≡ true
unfolding stop_coalescer
is_covered-add-run-stop now last event calls c open_yet =
    let r = add_event now event c in
    let s = run calls r.0 in
    let t = stop_coalescer last s.0 in
    let kept =
      IsKept-then event r (t.0, s.1 ++ t.1) (add_event-accepts now event c open_yet)
        (λ w.
          IsKept-then event s t (run-IsKept event calls r.0 w)
            (flush_all-IsKept event last (record s.0 { is_shutting_down = true }))) in
    elim kept [
      | inl w ↦ absurd (not-Waits event last (record s.0 { is_shutting_down = true }) w)
      | inr y ↦ y
    ]
