-- ===== src/ReserveEventCoalescer/Accepted.antt =====
-- An event that is accepted waits or is covered at once, and every other call keeps it.
use liquid_bot.Prelude.{
  ℕ, ◌≡◌, refl, false, Option, none, some, List, [], ◌∷◌, ◌++◌, arith, here, In-append_left,
  In-append_right, length, leb, if◌then◌else◌, Bool-cases, inl, inr, beq_self,
}
use liquid_bot.Prelude.Text.{Text, text_key, to_lower_case}
use liquid_bot.JsMap
use liquid_bot.JsMap.{JsMap, includes}
use liquid_bot.JsMap.Laws.{has-set}
use liquid_bot.ReserveEventCoalescer.{
  ReserveEvent, CoalescedBatch, ReserveBatch, GlobalBatch, Coalescer, first_batch, extended_batch,
  flush_reserve_batch, flush_global_batch, add_to_reserve, add_event_per_reserve, extended_global,
  add_to_global, add_event, flush_reserves, flush_all,
}
use liquid_bot.ReserveEventCoalescer.Conserved.{
  Waits, WaitsGlobally, IsKept, is_covered-append, flush_reserve_batch-IsKept,
  flush_global_batch-IsKept, joined-IsKept, add_to_reserve-IsKept, WaitsIn-set_new,
}

add_to_reserve-accepts :
    (now : ℕ) (event : ReserveEvent) (o : Option ReserveBatch) (c : Coalescer)
    → IsKept event (add_to_reserve now event (to_lower_case event.reserve) o c)
unfolding add_to_reserve
add_to_reserve-accepts now event none c =
    inl (inl (WaitsIn-set_new event (first_batch now event c) c.reserve_batches (here refl)))
add_to_reserve-accepts now event (some v) c =
    let k = to_lower_case event.reserve in
    let b = extended_batch now event c v in
    let added : Coalescer = record c { reserve_batches = JsMap.set k b c.reserve_batches } in
    joined-IsKept event (leb c.max_batch_size (length b.events)) added
      (flush_reserve_batch now k added)
      (inl (WaitsIn-set_new event b c.reserve_batches (In-append_right v.events (here refl))))
      (flush_reserve_batch-IsKept event now k added)

WaitsGlobally-extended :
    (e : ReserveEvent) (now : ℕ) (event : ReserveEvent) (c : Coalescer) (v : GlobalBatch)
    → WaitsGlobally e (some v)
    → WaitsGlobally e (some (extended_global now event c v))
WaitsGlobally-extended e now event c v (i, h) =
    let key = to_lower_case e.reserve in
    let found = has-set (to_lower_case event.reserve) key tt v.reserves in
    (In-append_left (event ∷ []) i, ground (arith, found, h))

WaitsGlobally-new :
    (now : ℕ) (event : ReserveEvent) (c : Coalescer) (v : GlobalBatch)
    → WaitsGlobally event (some (extended_global now event c v))
WaitsGlobally-new now event c v =
    let key = to_lower_case event.reserve in
    let found = has-set key key tt v.reserves in
    let y = beq_self key in (In-append_right v.events (here refl), ground (arith, found, y))

add_to_global-IsKept :
    (e : ReserveEvent) (now : ℕ) (event : ReserveEvent) (o : Option GlobalBatch) (c : Coalescer)
    → c.global_batch ≡ o
    → Waits e c
    → IsKept e (add_to_global now event o c)
unfolding add_to_global
add_to_global-IsKept e now event none c f (inl i) = inl (inl i)
add_to_global-IsKept e now event none c f (inr g) = absurd (rw f at g)
add_to_global-IsKept e now event (some v) c f w =
    let b = extended_global now event c v in
    let added : Coalescer = record c { global_batch = some b } in
    let waits : Waits e added = elim w [
      | inl i ↦ inl i
      | inr g ↦
          let g' : WaitsGlobally e (some v) = rw f at g in
          inr (WaitsGlobally-extended e now event c v g')
    ] in
    joined-IsKept e (leb c.max_batch_size (length b.events)) added (flush_global_batch now added)
      waits (flush_global_batch-IsKept e now added)

add_to_global-accepts :
    (now : ℕ) (event : ReserveEvent) (o : Option GlobalBatch) (c : Coalescer)
    → IsKept event (add_to_global now event o c)
unfolding add_to_global JsMap.has JsMap.set JsMap.add_all
add_to_global-accepts now event none c =
    let y = beq_self (to_lower_case event.reserve) in inl (inr (here refl, ground (arith, y)))
add_to_global-accepts now event (some v) c =
    let b = extended_global now event c v in
    let added : Coalescer = record c { global_batch = some b } in
    joined-IsKept event (leb c.max_batch_size (length b.events)) added
      (flush_global_batch now added) (inr (WaitsGlobally-new now event c v))
      (flush_global_batch-IsKept event now added)

pub add_event-IsKept :
    (e : ReserveEvent) (now : ℕ) (event : ReserveEvent) (c : Coalescer)
    → Waits e c
    → IsKept e (add_event now event c)
unfolding add_event add_event_per_reserve
add_event-IsKept e now event c w =
    let k = to_lower_case event.reserve in
    let reserve = add_to_reserve-IsKept e now event k (JsMap.get k c.reserve_batches) c refl w in
    let global = add_to_global-IsKept e now event c.global_batch c refl w in
    elim (Bool-cases c.is_shutting_down) [
      | inl y ↦ simp (y, if◌then◌else◌) (inl w)
      | inr n ↦ elim (Bool-cases c.per_reserve_coalescing) [
        | inl p ↦ simp (n, p, if◌then◌else◌) reserve
        | inr q ↦ simp (n, q, if◌then◌else◌) global
      ]
    ]

pub add_event-accepts :
    (now : ℕ) (event : ReserveEvent) (c : Coalescer)
    → c.is_shutting_down ≡ false
    → IsKept event (add_event now event c)
unfolding add_event add_event_per_reserve
add_event-accepts now event c n =
    let k = to_lower_case event.reserve in
    let reserve = add_to_reserve-accepts now event (JsMap.get k c.reserve_batches) c in
    let global = add_to_global-accepts now event c.global_batch c in
    elim (Bool-cases c.per_reserve_coalescing) [
      | inl p ↦ simp (n, p, if◌then◌else◌) reserve
      | inr q ↦ simp (n, q, if◌then◌else◌) global
    ]

-- What one call keeps another one keeps.
pub IsKept-then :
    (e : ReserveEvent) (r s : Coalescer × List CoalescedBatch)
    → IsKept e r
    → (Waits e r.0 → IsKept e s)
    → IsKept e (s.0, r.1 ++ s.1)
IsKept-then e r s (inr y) f =
    let split = is_covered-append e r.1 s.1 in inr (ground (arith, split, y))
IsKept-then e r s (inl w) f = elim (f w) [
  | inl w' ↦ inl w'
  | inr y ↦ let split = is_covered-append e r.1 s.1 in inr (ground (arith, split, y))
]

flush_reserves-IsKept :
    (e : ReserveEvent) (now : ℕ) (ks : List Text) (c : Coalescer)
    → Waits e c
    → IsKept e (flush_reserves now ks c)
unfolding flush_reserves
flush_reserves-IsKept e now [] c w = inl w
flush_reserves-IsKept e now (k ∷ ks) c w =
    let r = flush_reserve_batch now k c in
    IsKept-then e r (flush_reserves now ks r.0) (flush_reserve_batch-IsKept e now k c w)
      (flush_reserves-IsKept e now ks r.0)

pub flush_all-IsKept :
    (e : ReserveEvent) (now : ℕ) (c : Coalescer) → Waits e c → IsKept e (flush_all now c)
unfolding flush_all
flush_all-IsKept e now c w =
    let r = flush_reserves now (JsMap.keys c.reserve_batches) c in
    IsKept-then e r (flush_global_batch now r.0)
      (flush_reserves-IsKept e now (JsMap.keys c.reserve_batches) c w)
      (flush_global_batch-IsKept e now r.0)
