-- ===== src/ScanRegistry/Grows.antt =====
-- What each operation leaves of the settings, and how far the completed scans grow.
use liquid_bot.Prelude.{
  ℕ, suc, ◌≤◌, ◌≡◌, refl, Option, none, some, arith, length-keep-le, if◌then◌else◌, Bool-cases,
  Option-cases, inl, inr,
}
use liquid_bot.Prelude.Text.{Text, text_key}
use liquid_bot.JsMap
use liquid_bot.JsMap.{JsMap, size}
use liquid_bot.JsMap.Laws.{size-set, size-delete-le}
use liquid_bot.ScanRegistry.{
  ScanEntry, ScanRegistry, is_running, completed_at, is_recent, lock, acquire_key, release_key,
  keeps_recent, cleanup_registry, drop_timed, drop_completed,
}
use liquid_bot.ScanRegistry.Exclusive.{evict_if_over-room}

-- What a step leaves of the settings, and how far the completed scans may grow.
pub record Grows (r s : ScanRegistry) : Type 0 where
  pub ttl : s.default_ttl_ms ≡ r.default_ttl_ms
  pub limit : s.max_recently_completed_size ≡ r.max_recently_completed_size
  pub size_le : size s.recently_completed ≤ suc (size r.recently_completed)

size-drop_timed-le :
    (key : Text) (t : Option ℕ) (m : JsMap Text ScanEntry) → size (drop_timed key t m) ≤ size m
size-drop_timed-le key none m = ground arith
size-drop_timed-le key (some t) m = size-delete-le key m

size-drop_completed-le :
    (key : Text) (o : Option ScanEntry) (m : JsMap Text ScanEntry)
    → size (drop_completed key o m) ≤ size m
size-drop_completed-le key none m = ground arith
size-drop_completed-le key (some entry) m = size-drop_timed-le key (completed_at entry) m

pub acquire_key-Grows :
    (now : ℕ) (key : Text) (r : ScanRegistry) → Grows r (acquire_key now key r).0
unfolding acquire_key lock
acquire_key-Grows now key r = elim (Bool-cases (is_running now (JsMap.get key r.in_flight))) [
  | inl y ↦ rw (y, if◌then◌else◌) (record { ttl = refl; limit = refl; size_le = ground arith })
  | inr n ↦ elim (Bool-cases (is_recent now (JsMap.get key r.recently_completed))) [
    | inl y ↦
        rw (n, if◌then◌else◌)
          (rw (y, if◌then◌else◌) (record { ttl = refl; limit = refl; size_le = ground arith }))
    | inr m ↦
        let le =
          size-drop_completed-le key (JsMap.get key r.recently_completed) r.recently_completed in
        rw (n, if◌then◌else◌)
          (rw (m, if◌then◌else◌) (record { ttl = refl; limit = refl; size_le = ground arith }))
  ]
]

size-set-le :
    (key : Text) (entry : ScanEntry) (m : JsMap Text ScanEntry)
    → size (JsMap.set key entry m) ≤ suc (size m)
size-set-le key entry m = elim (Bool-cases (JsMap.has key m)) [
  | inl y ↦ let e = rw (y, if◌then◌else◌) at (size-set key entry m) in ground arith
  | inr n ↦ let e = rw (n, if◌then◌else◌) at (size-set key entry m) in ground arith
]

pub release_key-Grows :
    (now : ℕ) (key : Text) (r : ScanRegistry)
    → suc (size r.recently_completed) ≤ r.max_recently_completed_size
    → Grows r (release_key now key r)
unfolding release_key
release_key-Grows now key r room = elim (Option-cases (JsMap.get key r.in_flight)) [
  | inl n ↦ rw (n, release_key) (record { ttl = refl; limit = refl; size_le = ground arith })
  | inr (entry, e) ↦
      let done : ScanEntry = record {
        key = key;
        start_time = entry.start_time;
        completed_time = some now;
        ttl = r.default_ttl_ms;
      } in
      rw (e, release_key)
        (rw (evict_if_over-room r.max_recently_completed_size key done r.recently_completed room)
          (record {
            ttl = refl;
            limit = refl;
            size_le = size-set-le key done r.recently_completed;
          }))
]

pub cleanup_registry-Grows : (now : ℕ) (r : ScanRegistry) → Grows r (cleanup_registry now r).0
unfolding cleanup_registry
cleanup_registry-Grows now r = record {
  ttl = refl;
  limit = refl;
  size_le = let le = length-keep-le (keeps_recent now) r.recently_completed in ground arith;
}
