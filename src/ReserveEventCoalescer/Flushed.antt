-- ===== src/ReserveEventCoalescer/Flushed.antt =====
-- What a flush of everything, and a stop, leave: nothing waits.
use liquid_bot.Prelude.{
  ℕ, ◌≡◌, refl, sym, ap, ◌∙◌, true, false, none, List, [], ◌∷◌, arith, if◌then◌else◌, Bool-cases,
  Option-cases, inl, inr, beq_self,
}
use liquid_bot.Prelude.Text.{Text, text_key}
use liquid_bot.JsMap
use liquid_bot.JsMap.{JsMap, Distinct, includes}
use liquid_bot.JsMap.Laws.{has-delete, has-get}
use liquid_bot.JsMap.Sets.{includes-keys}
use liquid_bot.ReserveEventCoalescer.{
  ReserveEvent, Coalescer, flush_reserve_batch, flush_global_batch, flush_reserves, flush_all,
  stop_coalescer, pending_in, pending_global, total_pending_events,
}
use liquid_bot.ReserveEventCoalescer.Conserved.{Waits}

-- A flush of reserves leaves the other ones.
flush_reserve_batch-has :
    (now : ℕ) (j k : Text) (c : Coalescer)
    → JsMap.has k (flush_reserve_batch now j c).0.reserve_batches
      ≡ (if text_key.beq j k then false else JsMap.has k c.reserve_batches)
unfolding flush_reserve_batch
flush_reserve_batch-has now j k c = elim (Option-cases (JsMap.get j c.reserve_batches)) [
  | inr (b, e) ↦ rw (e, flush_reserve_batch) (has-delete j k c.reserve_batches)
  | inl n ↦
      let absent = has-get j c.reserve_batches n in
      rw (n, flush_reserve_batch)
        (elim (Bool-cases (text_key.beq j k)) [
          | inr f ↦ rw (f, if◌then◌else◌) refl
          | inl y ↦
              let same : j ≡ k = (text_key.beq_iff j k).0 y in
              rw (y, if◌then◌else◌) (ap (λ i. JsMap.has i c.reserve_batches) (sym same) ∙ absent)
        ])
]

flush_reserves-has :
    (now : ℕ) (ks : List Text) (k : Text) (c : Coalescer)
    → JsMap.has k (flush_reserves now ks c).0.reserve_batches
      ≡ (if includes k ks then false else JsMap.has k c.reserve_batches)
unfolding flush_reserves includes
flush_reserves-has now [] k c = refl
flush_reserves-has now (j ∷ ks) k c =
    let r = (flush_reserve_batch now j c).0 in
    ground (arith, flush_reserves-has now ks k r, flush_reserve_batch-has now j k c)

flush_global_batch-none :
    (now : ℕ) (c : Coalescer)
    → ((flush_global_batch now c).0.global_batch ≡ none)
      × ((flush_global_batch now c).0.reserve_batches ≡ c.reserve_batches)
unfolding flush_global_batch
flush_global_batch-none now c = elim (Option-cases c.global_batch) [
  | inl n ↦ rw (n, flush_global_batch) (n, refl)
  | inr (b, e) ↦ rw (e, flush_global_batch) (refl, refl)
]

has_none {κ} : {V : Type κ} (m : JsMap Text V) → ((k : Text) → JsMap.has k m ≡ false) → m ≡ []
unfolding JsMap.has
has_none [] h = refl
has_none ((k, v) ∷ m) h = let wrong = h k in let y = beq_self k in absurd (ground (arith, wrong, y))

-- Nothing waits after all was flushed.
flush_all-none :
    (now : ℕ) (c : Coalescer)
    → ((flush_all now c).0.reserve_batches ≡ []) × ((flush_all now c).0.global_batch ≡ none)
unfolding flush_all
flush_all-none now c =
    let ks = JsMap.keys c.reserve_batches in
    let r = (flush_reserves now ks c).0 in
    let (global, same) = flush_global_batch-none now r in
    (same ∙ has_none r.reserve_batches gone, global)
  where
    gone :
        (k : Text)
        → JsMap.has k (flush_reserves now (JsMap.keys c.reserve_batches) c).0.reserve_batches
          ≡ false
    gone k =
        let h = flush_reserves-has now (JsMap.keys c.reserve_batches) k c in
        let i = includes-keys k c.reserve_batches in ground (arith, h, i)

pub not-Waits : (e : ReserveEvent) (now : ℕ) (c : Coalescer) → ¬ Waits e (flush_all now c).0
unfolding JsMap.get
not-Waits e now c (inl w) = rw (flush_all-none now c).0 at w
not-Waits e now c (inr g) = rw (flush_all-none now c).1 at g

-- The events that a stop leaves.
pub total-stopped : (now : ℕ) (c : Coalescer) → total_pending_events (stop_coalescer now c).0 ≡ 0
unfolding stop_coalescer total_pending_events pending_in
total-stopped now c =
    let (reserves, global) = flush_all-none now (record c { is_shutting_down = true }) in
    let a = ap pending_in reserves in let b = ap pending_global global in omega (arith, a, b)
