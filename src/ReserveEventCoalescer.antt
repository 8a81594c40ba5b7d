-- ===== src/ReserveEventCoalescer.antt =====
-- backend/src/services/ReserveEventCoalescer.ts: reserve events that come close together are emitted as
-- one batch. A timer is the time at which it is due; there is one for each batch. A call gives the
-- batches that it emits. Metrics and log lines are left out, and what listeners do.
pub mod Totals
pub mod Conserved
pub mod Accepted
pub mod Flushed
pub mod Stopped
use liquid_bot.Prelude.{
  ℕ, ◌+◌, Bool, true, false, Option, none, some, List, [], ◌∷◌, ◌++◌, length, leb, max,
  if◌then◌else◌,
}
use liquid_bot.Prelude.Text.{Text, text_key, to_lower_case}
use liquid_bot.JsMap
use liquid_bot.JsMap.{JsMap, JsSet}

pub data ReserveEventType : Type 0 where
  reserve_data_updated reserve_index_updated : ReserveEventType

pub record ReserveEvent : Type 0 where
  pub reserve : Text
  pub block_number : ℕ
  pub timestamp : ℕ
  pub event_type : ReserveEventType

pub record CoalescedBatch : Type 0 where
  pub reserves : List Text
  pub block_number : ℕ
  pub event_count : ℕ
  pub first_event_time : ℕ
  pub last_event_time : ℕ

pub record ReserveBatch : Type 0 where
  pub events : List ReserveEvent
  pub timer : ℕ
  pub first_event_time : ℕ

pub record GlobalBatch : Type 0 where
  pub events : List ReserveEvent
  pub reserves : JsSet Text
  pub timer : ℕ
  pub first_event_time : ℕ

pub record Coalescer : Type 0 where
  pub debounce_window_ms : ℕ
  pub max_batch_size : ℕ
  pub per_reserve_coalescing : Bool
  pub reserve_batches : JsMap Text ReserveBatch
  pub global_batch : Option GlobalBatch
  pub is_shutting_down : Bool

abbrev pub or_missing {ℓ} : {A : Type ℓ} → Option A → A → A
or_missing none d = d
or_missing (some a) d = a

unfoldable pub new_coalescer : Option ℕ → Option ℕ → Option Bool → Coalescer
new_coalescer window size per_reserve = record {
  debounce_window_ms = or_missing window 40;
  max_batch_size = or_missing size 50;
  per_reserve_coalescing = or_missing per_reserve false;
  reserve_batches = [];
  global_batch = none;
  is_shutting_down = false;
}

-- `Math.max` of the block numbers, of one event at least.
unfoldable pub latest_block : List ReserveEvent → ℕ
latest_block [] = 0
latest_block (e ∷ events) = max e.block_number (latest_block events)

abbrev pub batch_of : List Text → ℕ → List ReserveEvent → ℕ → CoalescedBatch
batch_of reserves now events first = record {
  reserves = reserves;
  block_number = latest_block events;
  event_count = length events;
  first_event_time = first;
  last_event_time = now;
}

unfoldable pub flush_reserve_batch : ℕ → Text → Coalescer → Coalescer × List CoalescedBatch
flush_reserve_batch now reserve c = elim (JsMap.get reserve c.reserve_batches) [
  | none ↦ (c, [])
  | some b ↦ (
    record c { reserve_batches = JsMap.delete reserve c.reserve_batches },
    batch_of (reserve ∷ []) now b.events b.first_event_time ∷ [],
  )
]

unfoldable pub flush_global_batch : ℕ → Coalescer → Coalescer × List CoalescedBatch
flush_global_batch now c = elim c.global_batch [
  | none ↦ (c, [])
  | some b ↦ (
    record c { global_batch = none },
    batch_of (JsMap.keys b.reserves) now b.events b.first_event_time ∷ [],
  )
]

abbrev pub first_batch : ℕ → ReserveEvent → Coalescer → ReserveBatch
first_batch now event c = record {
  events = event ∷ [];
  timer = now + c.debounce_window_ms;
  first_event_time = event.timestamp;
}

abbrev pub extended_batch : ℕ → ReserveEvent → Coalescer → ReserveBatch → ReserveBatch
extended_batch now event c b = record b {
  events = b.events ++ (event ∷ []);
  timer = now + c.debounce_window_ms;
}

-- `addEventPerReserve` with the batch of the reserve, if there is one.
unfoldable pub add_to_reserve :
    ℕ → ReserveEvent → Text → Option ReserveBatch → Coalescer → Coalescer × List CoalescedBatch
unfolding flush_reserve_batch
add_to_reserve now event reserve none c = (
  record c { reserve_batches = JsMap.set reserve (first_batch now event c) c.reserve_batches },
  [],
)
add_to_reserve now event reserve (some b) c =
    let more = extended_batch now event c b in
    let added : Coalescer = record c {
      reserve_batches = JsMap.set reserve more c.reserve_batches;
    } in
    if leb c.max_batch_size (length more.events)
    then flush_reserve_batch now reserve added
    else (added, [])

unfoldable pub add_event_per_reserve :
    ℕ → ReserveEvent → Coalescer → Coalescer × List CoalescedBatch
unfolding add_to_reserve
add_event_per_reserve now event c =
    let reserve = to_lower_case event.reserve in
    add_to_reserve now event reserve (JsMap.get reserve c.reserve_batches) c

abbrev pub first_global : ℕ → ReserveEvent → Coalescer → GlobalBatch
first_global now event c = record {
  events = event ∷ [];
  reserves = JsMap.set_of (to_lower_case event.reserve ∷ []);
  timer = now + c.debounce_window_ms;
  first_event_time = event.timestamp;
}

abbrev pub extended_global : ℕ → ReserveEvent → Coalescer → GlobalBatch → GlobalBatch
extended_global now event c b = record b {
  events = b.events ++ (event ∷ []);
  reserves = JsMap.add (to_lower_case event.reserve) b.reserves;
  timer = now + c.debounce_window_ms;
}

unfoldable pub add_to_global :
    ℕ → ReserveEvent → Option GlobalBatch → Coalescer → Coalescer × List CoalescedBatch
unfolding flush_global_batch
add_to_global now event none c = (record c { global_batch = some (first_global now event c) }, [])
add_to_global now event (some b) c =
    let more = extended_global now event c b in
    let added : Coalescer = record c { global_batch = some more } in
    if leb c.max_batch_size (length more.events) then flush_global_batch now added else (added, [])

unfoldable pub add_event : ℕ → ReserveEvent → Coalescer → Coalescer × List CoalescedBatch
unfolding add_event_per_reserve add_to_global
add_event now event c =
    if c.is_shutting_down
    then (c, [])
    else if c.per_reserve_coalescing
    then add_event_per_reserve now event c
    else add_to_global now event c.global_batch c

unfoldable pub flush_reserves : ℕ → List Text → Coalescer → Coalescer × List CoalescedBatch
unfolding flush_reserve_batch
flush_reserves now [] c = (c, [])
flush_reserves now (reserve ∷ reserves) c =
    let (next, batches) = flush_reserve_batch now reserve c in
    let (final, later) = flush_reserves now reserves next in (final, batches ++ later)

unfoldable pub flush_all : ℕ → Coalescer → Coalescer × List CoalescedBatch
unfolding flush_reserves flush_global_batch
flush_all now c =
    let (next, batches) = flush_reserves now (JsMap.keys c.reserve_batches) c in
    let (final, last) = flush_global_batch now next in (final, batches ++ last)

unfoldable pub stop_coalescer : ℕ → Coalescer → Coalescer × List CoalescedBatch
unfolding flush_all
stop_coalescer now c = flush_all now (record c { is_shutting_down = true })

unfoldable pub pending_in : JsMap Text ReserveBatch → ℕ
pending_in [] = 0
pending_in ((k, b) ∷ m) = length b.events + pending_in m

abbrev pub pending_global : Option GlobalBatch → ℕ
pending_global none = 0
pending_global (some b) = length b.events

-- `totalPendingEvents` of `getStats`
unfoldable pub total_pending_events : Coalescer → ℕ
unfolding pending_in
total_pending_events c = pending_in c.reserve_batches + pending_global c.global_batch
