-- ===== src/ReserveEventCoalescer/Conserved.antt =====
-- No event is lost: it waits in a batch of its reserve until a batch with its reserve and a block that
-- is not older is emitted.
use liquid_bot.Prelude.{
  ℕ, ◌≤◌, ◌≡◌, ◌⊎◌, refl, sym, ap, ◌∙◌, Bool, true, false, ◌&&◌, ◌||◌, Option, none, some, List, [],
  ◌∷◌, ◌++◌, arith, In, here, there, In-append_left, length, leb, le→leb, if◌then◌else◌, Bool-cases,
  Option-cases, inl, inr, beq_self,
}
use liquid_bot.Prelude.Text.{Text, text_key, to_lower_case}
use liquid_bot.JsMap
use liquid_bot.JsMap.{JsMap, includes}
use liquid_bot.JsMap.Laws.{get-set, get-delete}
use liquid_bot.JsMap.Sets.{includes-keys}
use liquid_bot.ReserveEventCoalescer.{
  ReserveEvent, CoalescedBatch, ReserveBatch, GlobalBatch, Coalescer, first_batch, extended_batch,
  latest_block, batch_of, flush_reserve_batch, flush_global_batch, add_to_reserve,
}

latest_block-le :
    {e : ReserveEvent} {events : List ReserveEvent}
    → In e events
    → e.block_number ≤ latest_block events
unfolding latest_block
latest_block-le {e} (here h) =
    let b = ap (λ (x : ReserveEvent). x.block_number) h in omega (arith, b)
latest_block-le (there h) = omega (arith, latest_block-le h)

-- The batch stands for the event.
abbrev pub covers : ReserveEvent → CoalescedBatch → Bool
covers e b = includes (to_lower_case e.reserve) b.reserves && leb e.block_number b.block_number

unfoldable pub is_covered : ReserveEvent → List CoalescedBatch → Bool
is_covered e [] = false
is_covered e (b ∷ batches) = covers e b || is_covered e batches

pub is_covered-append :
    (e : ReserveEvent) (xs ys : List CoalescedBatch)
    → is_covered e (xs ++ ys) ≡ (is_covered e xs || is_covered e ys)
unfolding is_covered
is_covered-append e [] ys = refl
is_covered-append e (x ∷ xs) ys = ground (arith, is_covered-append e xs ys)

abbrev pub WaitsIn : ReserveEvent → Option ReserveBatch → Type 0
WaitsIn e none = ⊥
WaitsIn e (some b) = In e b.events

abbrev pub WaitsGlobally : ReserveEvent → Option GlobalBatch → Type 0
WaitsGlobally e none = ⊥
WaitsGlobally e (some g) = In e g.events × (JsMap.has (to_lower_case e.reserve) g.reserves ≡ true)

abbrev pub Waits : ReserveEvent → Coalescer → Type 0
Waits e c =
    WaitsIn e (JsMap.get (to_lower_case e.reserve) c.reserve_batches)
    ⊎ WaitsGlobally e c.global_batch

abbrev pub IsKept : ReserveEvent → Coalescer × List CoalescedBatch → Type 0
IsKept e r = Waits e r.0 ⊎ (is_covered e r.1 ≡ true)

-- A batch that the event is in covers it.
batch_of-covers :
    (e : ReserveEvent) (reserves : List Text) (now first : ℕ) (events : List ReserveEvent)
    → In e events
    → includes (to_lower_case e.reserve) reserves ≡ true
    → is_covered e (batch_of reserves now events first ∷ []) ≡ true
unfolding is_covered
batch_of-covers e reserves now first events i h =
    let l = le→leb e.block_number (latest_block events) (latest_block-le i) in ground (arith, h, l)

pub flush_reserve_batch-IsKept :
    (e : ReserveEvent) (now : ℕ) (k : Text) (c : Coalescer)
    → Waits e c
    → IsKept e (flush_reserve_batch now k c)
unfolding flush_reserve_batch includes
flush_reserve_batch-IsKept e now k c w = elim (Option-cases (JsMap.get k c.reserve_batches)) [
  | inl n ↦ rw (n, flush_reserve_batch) (inl w)
  | inr (b, f) ↦
      rw (f, flush_reserve_batch)
        (elim w [
          | inr g ↦ inl (inr g)
          | inl i ↦ elim (Bool-cases (text_key.beq k (to_lower_case e.reserve))) [
            | inr n ↦
                let rest = get-delete k (to_lower_case e.reserve) c.reserve_batches in
                inl (inl (rw rest (rw (n, if◌then◌else◌) i)))
            | inl y ↦
                let same : k ≡ to_lower_case e.reserve =
                  (text_key.beq_iff k (to_lower_case e.reserve)).0 y in
                let found : JsMap.get (to_lower_case e.reserve) c.reserve_batches ≡ some b =
                  ap (λ j. JsMap.get j c.reserve_batches) (sym same) ∙ f in
                let i' : WaitsIn e (some b) = rw found at i in
                inr (
                  batch_of-covers e (k ∷ []) now b.first_event_time b.events i' (ground (arith, y)))
          ]
        ])
]

pub flush_global_batch-IsKept :
    (e : ReserveEvent) (now : ℕ) (c : Coalescer) → Waits e c → IsKept e (flush_global_batch now c)
unfolding flush_global_batch
flush_global_batch-IsKept e now c (inl i) = elim (Option-cases c.global_batch) [
  | inl n ↦ rw (n, flush_global_batch) (inl (inl i))
  | inr (b, f) ↦ rw (f, flush_global_batch) (inl (inl i))
]
flush_global_batch-IsKept e now c (inr g) = elim (Option-cases c.global_batch) [
  | inl n ↦ absurd (rw n at g)
  | inr (b, f) ↦
      let (i, h) = rw f at g in
      rw (f, flush_global_batch)
        (inr (
          batch_of-covers e (JsMap.keys b.reserves) now b.first_event_time b.events i
            (includes-keys (to_lower_case e.reserve) b.reserves ∙ h)))
]

-- An event that joins a batch, with or without the flush of a batch that is full.
pub joined-IsKept :
    (e : ReserveEvent) (full : Bool) (added : Coalescer) (flushed : Coalescer × List CoalescedBatch)
    → Waits e added
    → (Waits e added → IsKept e flushed)
    → IsKept e (if full then flushed else (added, []))
joined-IsKept e true added flushed w f = f w
joined-IsKept e false added flushed w f = inl w

-- The events of a batch that grows, and the one that joins it.
WaitsIn-set :
    (e : ReserveEvent) (k : Text) (b : ReserveBatch) (m : JsMap Text ReserveBatch)
    → WaitsIn e (JsMap.get (to_lower_case e.reserve) m)
    → ((v : ReserveBatch) → JsMap.get k m ≡ some v → In e v.events → In e b.events)
    → WaitsIn e (JsMap.get (to_lower_case e.reserve) (JsMap.set k b m))
WaitsIn-set e k b m w grows =
    let key = to_lower_case e.reserve in
    let found = get-set k key b m in
    elim (Bool-cases (text_key.beq k key)) [
      | inr n ↦ rw found (rw (n, if◌then◌else◌) w)
      | inl y ↦ elim (Option-cases (JsMap.get key m)) [
        | inl n ↦ absurd (rw n at w)
        | inr (v, f) ↦
            let same : k ≡ key = (text_key.beq_iff k key).0 y in
            let w' : WaitsIn e (some v) = rw f at w in
            let f' : JsMap.get k m ≡ some v = ap (λ j. JsMap.get j m) same ∙ f in
            rw found (rw (y, if◌then◌else◌) (grows v f' w'))
      ]
    ]

pub WaitsIn-set_new :
    (e : ReserveEvent) (b : ReserveBatch) (m : JsMap Text ReserveBatch)
    → In e b.events
    → WaitsIn e (JsMap.get (to_lower_case e.reserve) (JsMap.set (to_lower_case e.reserve) b m))
WaitsIn-set_new e b m i =
    let key = to_lower_case e.reserve in
    let found = get-set key key b m in let y = beq_self key in rw found (rw (y, if◌then◌else◌) i)

pub add_to_reserve-IsKept :
    (e : ReserveEvent) (now : ℕ) (event : ReserveEvent) (k : Text) (o : Option ReserveBatch)
    (c : Coalescer)
    → JsMap.get k c.reserve_batches ≡ o
    → Waits e c
    → IsKept e (add_to_reserve now event k o c)
unfolding add_to_reserve
add_to_reserve-IsKept e now event k none c f (inr g) = inl (inr g)
add_to_reserve-IsKept e now event k none c f (inl w) = inl (
    inl (
      WaitsIn-set e k (first_batch now event c) c.reserve_batches w
        (λ v h i. let wrong = sym f ∙ h in absurd (ground (arith, wrong)))))
add_to_reserve-IsKept e now event k (some v) c f w =
    let b = extended_batch now event c v in
    let added : Coalescer = record c { reserve_batches = JsMap.set k b c.reserve_batches } in
    let waits : Waits e added = elim w [
      | inr g ↦ inr g
      | inl i ↦ inl (
          WaitsIn-set e k b c.reserve_batches i (λ u h j.
            let same : some u ≡ some v = sym h ∙ f in
            let ev : u ≡ v = cc in In-append_left (event ∷ []) (rw (sym ev) j)))
    ] in
    joined-IsKept e (leb c.max_batch_size (length b.events)) added (flush_reserve_batch now k added)
      waits (flush_reserve_batch-IsKept e now k added)
