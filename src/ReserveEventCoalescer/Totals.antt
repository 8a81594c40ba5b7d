-- ===== src/ReserveEventCoalescer/Totals.antt =====
-- The numbers of events: no event is counted twice, and none is left out.
use liquid_bot.Prelude.{
  ℕ, ◌+◌, ◌≡◌, refl, sym, ap, ◌∙◌, Bool, true, false, Option, none, some, List, [], ◌∷◌, ◌++◌,
  arith, length, leb, if◌then◌else◌, Bool-cases, Option-cases, inl, inr,
}
use liquid_bot.Prelude.Text.{Text, text_key, to_lower_case}
use liquid_bot.JsMap
use liquid_bot.JsMap.{JsMap, Distinct}
use liquid_bot.JsMap.Laws.{delete_absent, Distinct-set, Distinct-delete}
use liquid_bot.ReserveEventCoalescer.{
  ReserveEvent, CoalescedBatch, ReserveBatch, GlobalBatch, Coalescer, first_batch, extended_batch,
  flush_reserve_batch, flush_global_batch, add_to_reserve, add_event_per_reserve, extended_global,
  add_to_global, add_event, flush_reserves, flush_all, pending_in, pending_global,
  total_pending_events,
}

unfoldable pub emitted : List CoalescedBatch → ℕ
emitted [] = 0
emitted (b ∷ batches) = b.event_count + emitted batches

emitted-append : (xs ys : List CoalescedBatch) → emitted (xs ++ ys) ≡ emitted xs + emitted ys
unfolding emitted
emitted-append [] ys = omega arith
emitted-append (x ∷ xs) ys = omega (arith, emitted-append xs ys)

length-snoc : (xs : List ReserveEvent) (e : ReserveEvent) → length (xs ++ (e ∷ [])) ≡ length xs + 1
length-snoc [] e = omega arith
length-snoc (x ∷ xs) e = omega (arith, length-snoc xs e)

pending_in-set :
    (k : Text) (b v : ReserveBatch) (m : JsMap Text ReserveBatch)
    → JsMap.get k m ≡ some v
    → pending_in (JsMap.set k b m) + length v.events ≡ pending_in m + length b.events
unfolding pending_in JsMap.get JsMap.set
pending_in-set k b v [] h = ground (arith, h)
pending_in-set k b v ((j, w) ∷ m) h = elim (Bool-cases (text_key.beq j k)) [
  | inl y ↦
      let same : some w ≡ some v = rw y at h in
      let e : w ≡ v = cc in
      let l = ap (λ (x : ReserveBatch). length x.events) e in
      rw (y, if◌then◌else◌) (omega (arith, l))
  | inr n ↦
      let h' : JsMap.get k m ≡ some v = rw n at h in
      rw (n, if◌then◌else◌) (omega (arith, pending_in-set k b v m h'))
]

pending_in-set_new :
    (k : Text) (b : ReserveBatch) (m : JsMap Text ReserveBatch)
    → JsMap.get k m ≡ none
    → pending_in (JsMap.set k b m) ≡ pending_in m + length b.events
unfolding pending_in JsMap.get JsMap.set
pending_in-set_new k b [] h = omega arith
pending_in-set_new k b ((j, w) ∷ m) h = elim (Bool-cases (text_key.beq j k)) [
  | inl y ↦ let wrong : some w ≡ none = rw y at h in ground (arith, wrong)
  | inr n ↦
      let h' : JsMap.get k m ≡ none = rw n at h in
      rw (n, if◌then◌else◌) (omega (arith, pending_in-set_new k b m h'))
]

pending_in-delete :
    (k : Text) (v : ReserveBatch) (m : JsMap Text ReserveBatch)
    → Distinct m
    → JsMap.get k m ≡ some v
    → pending_in (JsMap.delete k m) + length v.events ≡ pending_in m
unfolding pending_in JsMap.get JsMap.delete
pending_in-delete k v [] d h = ground (arith, h)
pending_in-delete k v ((j, w) ∷ m) (absent, d) h = elim (Bool-cases (text_key.beq j k)) [
  | inl y ↦
      let same : some w ≡ some v = rw y at h in
      let e : w ≡ v = cc in
      let l = ap (λ (x : ReserveBatch). length x.events) e in
      let here : j ≡ k = (text_key.beq_iff j k).0 y in
      let absent' : JsMap.has k m ≡ false = ap (λ i. JsMap.has i m) (sym here) ∙ absent in
      let rest = ap pending_in (delete_absent k m absent') in
      rw (y, if◌then◌else◌) (omega (arith, l, rest))
  | inr n ↦
      let h' : JsMap.get k m ≡ some v = rw n at h in
      rw (n, if◌then◌else◌) (omega (arith, pending_in-delete k v m d h'))
]

-- A call that accepts `n` events: those that wait and those emitted are those that waited and `n`.
pub record Counts (n : ℕ) (c : Coalescer) (r : Coalescer × List CoalescedBatch) : Type 0 where
  pub conserved : total_pending_events r.0 + emitted r.1 ≡ total_pending_events c + n
  pub distinct : Distinct r.0.reserve_batches

pub Counts-same : (c : Coalescer) → Distinct c.reserve_batches → Counts 0 c (c, [])
unfolding emitted
Counts-same c d = record { conserved = omega arith; distinct = d }

-- One call after another.
pub Counts-then :
    (a b : ℕ) (c : Coalescer) (r s : Coalescer × List CoalescedBatch)
    → Counts a c r
    → Counts b r.0 s
    → Counts (a + b) c (s.0, r.1 ++ s.1)
Counts-then a b c r s x y =
    let first = x.conserved in
    let then_on = y.conserved in
    record {
      conserved = omega (arith, first, then_on, emitted-append r.1 s.1);
      distinct = y.distinct;
    }

pub flush_reserve_batch-Counts :
    (now : ℕ) (k : Text) (c : Coalescer)
    → Distinct c.reserve_batches
    → Counts 0 c (flush_reserve_batch now k c)
unfolding flush_reserve_batch total_pending_events emitted
flush_reserve_batch-Counts now k c d = elim (Option-cases (JsMap.get k c.reserve_batches)) [
  | inl n ↦ rw (n, flush_reserve_batch) (Counts-same c d)
  | inr (b, e) ↦
      let gone = pending_in-delete k b c.reserve_batches d e in
      rw (e, flush_reserve_batch)
        (record {
          conserved = omega (arith, gone);
          distinct = Distinct-delete k c.reserve_batches d;
        })
]

pub flush_global_batch-Counts :
    (now : ℕ) (c : Coalescer) → Distinct c.reserve_batches → Counts 0 c (flush_global_batch now c)
unfolding flush_global_batch total_pending_events emitted
flush_global_batch-Counts now c d = elim (Option-cases c.global_batch) [
  | inl n ↦
      let e = ap pending_global n in
      rw (n, flush_global_batch) (record { conserved = omega arith; distinct = d })
  | inr (b, e) ↦
      let l = ap pending_global e in
      rw (e, flush_global_batch) (record { conserved = omega (arith, l); distinct = d })
]

-- An event that joins a batch, with or without the flush of a batch that is full.
joined-Counts :
    (full : Bool) (c added : Coalescer) (flushed : Coalescer × List CoalescedBatch)
    → total_pending_events added ≡ total_pending_events c + 1
    → Distinct added.reserve_batches
    → Counts 0 added flushed
    → Counts 1 c (if full then flushed else (added, []))
unfolding emitted
joined-Counts true c added flushed one d f =
    let e = f.conserved in record { conserved = omega (arith, e, one); distinct = f.distinct }
joined-Counts false c added flushed one d f = record {
  conserved = omega (arith, one);
  distinct = d;
}

add_to_reserve-Counts :
    (now : ℕ) (event : ReserveEvent) (k : Text) (o : Option ReserveBatch) (c : Coalescer)
    → Distinct c.reserve_batches
    → JsMap.get k c.reserve_batches ≡ o
    → Counts 1 c (add_to_reserve now event k o c)
unfolding add_to_reserve total_pending_events emitted
add_to_reserve-Counts now event k none c d e =
    let b = first_batch now event c in
    let more = pending_in-set_new k b c.reserve_batches e in
    record { conserved = omega (arith, more); distinct = Distinct-set k b c.reserve_batches d }
add_to_reserve-Counts now event k (some v) c d e =
    let b = extended_batch now event c v in
    let added : Coalescer = record c { reserve_batches = JsMap.set k b c.reserve_batches } in
    let more = pending_in-set k b v c.reserve_batches e in
    let longer = length-snoc v.events event in
    let d' = Distinct-set k b c.reserve_batches d in
    joined-Counts (leb c.max_batch_size (length b.events)) c added (flush_reserve_batch now k added)
      (omega (arith, more, longer)) d' (flush_reserve_batch-Counts now k added d')

add_to_global-Counts :
    (now : ℕ) (event : ReserveEvent) (o : Option GlobalBatch) (c : Coalescer)
    → Distinct c.reserve_batches
    → c.global_batch ≡ o
    → Counts 1 c (add_to_global now event o c)
unfolding add_to_global total_pending_events emitted
add_to_global-Counts now event none c d e =
    let before = ap pending_global e in record { conserved = omega (arith, before); distinct = d }
add_to_global-Counts now event (some v) c d e =
    let b = extended_global now event c v in
    let added : Coalescer = record c { global_batch = some b } in
    let before = ap pending_global e in
    let longer = length-snoc v.events event in
    joined-Counts (leb c.max_batch_size (length b.events)) c added (flush_global_batch now added)
      (omega (arith, before, longer)) d (flush_global_batch-Counts now added d)

abbrev pub accepted : Coalescer → ℕ
accepted c = if c.is_shutting_down then 0 else 1

pub add_event-Counts :
    (now : ℕ) (event : ReserveEvent) (c : Coalescer)
    → Distinct c.reserve_batches
    → Counts (accepted c) c (add_event now event c)
unfolding add_event add_event_per_reserve
add_event-Counts now event c d = elim (Bool-cases c.is_shutting_down) [
  | inl y ↦ simp (y, if◌then◌else◌) (Counts-same c d)
  | inr n ↦
      let k = to_lower_case event.reserve in
      let reserve = add_to_reserve-Counts now event k (JsMap.get k c.reserve_batches) c d refl in
      let global = add_to_global-Counts now event c.global_batch c d refl in
      elim (Bool-cases c.per_reserve_coalescing) [
        | inl p ↦ simp (n, p, if◌then◌else◌) reserve
        | inr q ↦ simp (n, q, if◌then◌else◌) global
      ]
]

flush_reserves-Counts :
    (now : ℕ) (ks : List Text) (c : Coalescer)
    → Distinct c.reserve_batches
    → Counts 0 c (flush_reserves now ks c)
unfolding flush_reserves
flush_reserves-Counts now [] c d = Counts-same c d
flush_reserves-Counts now (k ∷ ks) c d =
    let first = flush_reserve_batch-Counts now k c d in
    let r = flush_reserve_batch now k c in
    Counts-then 0 0 c r (flush_reserves now ks r.0) first
      (flush_reserves-Counts now ks r.0 first.distinct)

pub flush_all-Counts :
    (now : ℕ) (c : Coalescer) → Distinct c.reserve_batches → Counts 0 c (flush_all now c)
unfolding flush_all
flush_all-Counts now c d =
    let r = flush_reserves now (JsMap.keys c.reserve_batches) c in
    let first = flush_reserves-Counts now (JsMap.keys c.reserve_batches) c d in
    Counts-then 0 0 c r (flush_global_batch now r.0) first
      (flush_global_batch-Counts now r.0 first.distinct)
