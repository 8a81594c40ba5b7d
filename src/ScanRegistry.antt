-- ===== src/ScanRegistry.antt =====
-- backend/src/services/ScanRegistry.ts: no scan for a key while another one runs, or soon after it.
-- The timer that calls `cleanup`, the metrics and the log lines are left out. The two times that the
-- eviction compares are below its initial value.
pub mod Exclusive
pub mod Cleanup
pub mod Grows
pub mod Runs
use liquid_bot.Prelude.{
  ℕ, ◌+◌, ◌-◌, ◌*◌, Bool, true, false, not, ◌&&◌, Option, none, some, List, [], ◌∷◌, ◌++◌, keep,
  length, take, ltb, leb, max, ◌==◌, if◌then◌else◌,
}
use liquid_bot.Prelude.Text.{Text, codes, text_key, truthy, to_lower_case, decimal}
use liquid_bot.JsMap
use liquid_bot.JsMap.{JsMap}
use liquid_bot.JsMap.Bounded.{evict}

pub data ScanTrigger : Type 0 where
  price reserve head event : ScanTrigger

pub record ScanKey : Type 0 where
  pub trigger_type : ScanTrigger
  pub symbol_or_reserve : Option Text
  pub block_tag : Option ℕ
  pub reason_hash : Option Text

pub record ScanEntry : Type 0 where
  pub key : Text
  pub start_time : ℕ
  pub completed_time : Option ℕ
  pub ttl : ℕ

pub record ScanRegistry : Type 0 where
  pub in_flight : JsMap Text ScanEntry
  pub recently_completed : JsMap Text ScanEntry
  pub default_ttl_ms : ℕ
  pub max_recently_completed_size : ℕ
  pub avg_block_time_ms : ℕ
  pub total_suppressed : ℕ

-- `value ?? default`
abbrev pub or_if_missing : Option ℕ → ℕ → ℕ
or_if_missing none d = d
or_if_missing (some n) d = n

unfoldable pub create_registry : Option ℕ → Option ℕ → Option ℕ → ScanRegistry
create_registry ttl size block_time =
    let avg = or_if_missing block_time 2000 in
    record {
      in_flight = [];
      recently_completed = [];
      default_ttl_ms = or_if_missing ttl (max (2 * avg) 10000);
      max_recently_completed_size = or_if_missing size 1000;
      avg_block_time_ms = avg;
      total_suppressed = 0;
    }

abbrev pub trigger_name : ScanTrigger → Text
trigger_name price = codes "price"
trigger_name reserve = codes "reserve"
trigger_name head = codes "head"
trigger_name event = codes "event"

abbrev pub starts_with_0x : Text → Bool
starts_with_0x [] = false
starts_with_0x (x ∷ []) = false
starts_with_0x (x ∷ y ∷ s) = (x == b'0') && (y == b'x')

abbrev pub reserve_address_prefix_length : ℕ
reserve_address_prefix_length = 12

abbrev pub identifier_part : Option Text → List Text
identifier_part none = []
identifier_part (some s) =
    if truthy s
    then (if starts_with_0x (to_lower_case s)
        then take reserve_address_prefix_length (to_lower_case s)
        else to_lower_case s)
      ∷ []
    else []

abbrev pub block_part : Option ℕ → List Text
block_part none = []
block_part (some n) = (b'b' ∷ decimal n) ∷ []

abbrev pub reason_part : Option Text → List Text
reason_part none = []
reason_part (some s) = if truthy s then s ∷ [] else []

-- `parts.join(':')`
unfoldable pub join_parts : List Text → Text
join_parts [] = []
join_parts (x ∷ []) = x
join_parts (x ∷ y ∷ parts) = x ++ codes ":" ++ join_parts (y ∷ parts)

unfoldable pub generate_key : ScanKey → Text
unfolding join_parts to_lower_case decimal
generate_key k = join_parts (
    trigger_name k.trigger_type
    ∷ (identifier_part k.symbol_or_reserve ++ block_part k.block_tag ++ reason_part k.reason_hash))

-- The entry stands in the way: `elapsed < ttl`.
abbrev pub is_running : ℕ → Option ScanEntry → Bool
is_running now none = false
is_running now (some entry) = ltb (now - entry.start_time) entry.ttl

-- `entry && entry.completedTime`: a time of 0 counts as none.
abbrev pub completed_at : ScanEntry → Option ℕ
completed_at entry = elim entry.completed_time [
  | none ↦ none
  | some t ↦ if t == 0 then none else some t
]

abbrev pub is_within : ℕ → ℕ → Option ℕ → Bool
is_within now ttl none = false
is_within now ttl (some t) = ltb (now - t) ttl

abbrev pub is_recent : ℕ → Option ScanEntry → Bool
is_recent now none = false
is_recent now (some entry) = is_within now entry.ttl (completed_at entry)

abbrev pub suppress : ScanRegistry → ScanRegistry
suppress r = record r { total_suppressed = r.total_suppressed + 1 }

abbrev pub drop_timed : Text → Option ℕ → JsMap Text ScanEntry → JsMap Text ScanEntry
drop_timed key none m = m
drop_timed key (some t) m = JsMap.delete key m

-- The removal of an entry that was found and has a time of completion.
abbrev pub drop_completed : Text → Option ScanEntry → JsMap Text ScanEntry → JsMap Text ScanEntry
drop_completed key none m = m
drop_completed key (some entry) m = drop_timed key (completed_at entry) m

-- The new lock. An expired entry of either map is removed first; an entry with no time of
-- completion stays.
unfoldable pub lock : ℕ → Text → ScanRegistry → ScanRegistry
lock now key r = record r {
  in_flight =
      JsMap.set key
        (record { key = key; start_time = now; completed_time = none; ttl = r.default_ttl_ms })
        (JsMap.delete key r.in_flight);
  recently_completed = drop_completed key (JsMap.get key r.recently_completed) r.recently_completed;
}

-- `acquire` for a key that was generated.
unfoldable pub acquire_key : ℕ → Text → ScanRegistry → ScanRegistry × Bool
unfolding lock
acquire_key now key r =
    if is_running now (JsMap.get key r.in_flight)
    then (suppress r, false)
    else if is_recent now (JsMap.get key r.recently_completed)
    then (suppress (record r { in_flight = JsMap.delete key r.in_flight }), false)
    else (lock now key r, true)

unfoldable pub acquire : ℕ → ScanKey → ScanRegistry → ScanRegistry × Bool
unfolding acquire_key generate_key
acquire now scan_key r = acquire_key now (generate_key scan_key) r

-- `entry.completedTime || entry.startTime`
abbrev pub entry_time : ScanEntry → ℕ
entry_time entry = elim (completed_at entry) [ none ↦ entry.start_time | some t ↦ t ]

unfoldable pub evict_oldest_recently_completed : JsMap Text ScanEntry → JsMap Text ScanEntry
unfolding evict
evict_oldest_recently_completed m = evict ltb entry_time truthy m

abbrev pub evict_if_over : ℕ → JsMap Text ScanEntry → JsMap Text ScanEntry
evict_if_over limit m = if ltb limit (JsMap.size m) then evict_oldest_recently_completed m else m

unfoldable pub release_key : ℕ → Text → ScanRegistry → ScanRegistry
unfolding evict_oldest_recently_completed
release_key now key r = elim (JsMap.get key r.in_flight) [
  | none ↦ r
  | some entry ↦ record r {
    in_flight = JsMap.delete key r.in_flight;
    recently_completed = evict_if_over r.max_recently_completed_size (
        JsMap.set key
          (record {
            key = key;
            start_time = entry.start_time;
            completed_time = some now;
            ttl = r.default_ttl_ms;
          })
          r.recently_completed);
  }
]

unfoldable pub release : ℕ → ScanKey → ScanRegistry → ScanRegistry
unfolding release_key generate_key
release now scan_key r = release_key now (generate_key scan_key) r

unfoldable pub is_in_flight : ℕ → ScanKey → ScanRegistry → Bool
unfolding generate_key
is_in_flight now scan_key r = is_running now (JsMap.get (generate_key scan_key) r.in_flight)

-- What `cleanup` keeps of each map.
abbrev pub keeps_running : ℕ → Text × ScanEntry → Bool
keeps_running now e = ltb (now - e.1.start_time) e.1.ttl

abbrev pub keeps_recent : ℕ → Text × ScanEntry → Bool
keeps_recent now e = elim (completed_at e.1) [ none ↦ true | some t ↦ ltb (now - t) e.1.ttl ]

-- The number is that of the entries removed.
unfoldable pub cleanup_registry : ℕ → ScanRegistry → ScanRegistry × ℕ
cleanup_registry now r =
    let running = keep (keeps_running now) r.in_flight in
    let recent = keep (keeps_recent now) r.recently_completed in
    (
      record r { in_flight = running; recently_completed = recent },
      (length r.in_flight - length running) + (length r.recently_completed - length recent),
    )

unfoldable pub clear_registry : ScanRegistry → ScanRegistry
clear_registry r = record r { in_flight = []; recently_completed = []; total_suppressed = 0 }
