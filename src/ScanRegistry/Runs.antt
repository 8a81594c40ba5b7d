-- ===== src/ScanRegistry/Runs.antt =====
-- When a key that was granted is refused for a time to live, over calls of `acquire`, `release` and the
-- cleanup; `clear` is not among them.
use liquid_bot.Prelude.{
  ℕ, suc, ◌+◌, ◌≤◌, ◌<◌, ◌≡◌, refl, ap, ◌∙◌, true, false, none, some, List, [], ◌∷◌, arith, length,
  All, if◌then◌else◌, Bool-cases, inl, inr, beq_self,
}
use liquid_bot.Prelude.Text.{Text, text_key}
use liquid_bot.JsMap
use liquid_bot.JsMap.{JsMap, size}
use liquid_bot.JsMap.Laws.{get-set}
use liquid_bot.ScanRegistry.{
  ScanKey, ScanEntry, ScanRegistry, generate_key, is_running, is_recent, lock, acquire_key, acquire,
  release, cleanup_registry,
}
use liquid_bot.ScanRegistry.Exclusive.{
  IsBlocked, acquire_key-refused, acquire_key-IsBlocked_other, release_key-IsBlocked,
}
use liquid_bot.ScanRegistry.Cleanup.{cleanup_registry-IsBlocked}
use liquid_bot.ScanRegistry.Grows.{
  Grows, acquire_key-Grows, release_key-Grows, cleanup_registry-Grows,
}

-- A call, with its time.
pub data Call : Type 0 where
  acquires : ℕ → ScanKey → Call
  releases : ℕ → ScanKey → Call
  cleans : ℕ → Call

abbrev pub call_time : Call → ℕ
call_time (acquires now k) = now
call_time (releases now k) = now
call_time (cleans now) = now

unfoldable pub step : Call → ScanRegistry → ScanRegistry
step (acquires now k) r = (acquire now k r).0
step (releases now k) r = release now k r
step (cleans now) r = (cleanup_registry now r).0

unfoldable pub run : List Call → ScanRegistry → ScanRegistry
unfolding step
run [] r = r
run (call ∷ calls) r = run calls (step call r)

step-Grows :
    (call : Call) (r : ScanRegistry)
    → suc (size r.recently_completed) ≤ r.max_recently_completed_size
    → Grows r (step call r)
unfolding step acquire release
step-Grows (acquires now k) r room = acquire_key-Grows now (generate_key k) r
step-Grows (releases now k) r room = release_key-Grows now (generate_key k) r room
step-Grows (cleans now) r room = cleanup_registry-Grows now r

acquire_key-IsBlocked :
    (start now : ℕ) (key other : Text) (r : ScanRegistry)
    → 0 < start
    → start ≤ now
    → now < start + r.default_ttl_ms
    → IsBlocked start key r
    → IsBlocked start key (acquire_key now other r).0
acquire_key-IsBlocked start now key other r pos since before b =
    elim (Bool-cases (text_key.beq other key)) [
      | inl y ↦
          let same : other ≡ key = (text_key.beq_iff other key).0 y in
          rw same (acquire_key-refused start now key r pos since before b).1
      | inr n ↦ acquire_key-IsBlocked_other key other n start now r b
    ]

-- The times of the calls, from `start` until a time to live after it.
abbrev pub IsWithin : ℕ → ℕ → Call → Type 0
IsWithin start ttl call = (start ≤ call_time call) × (call_time call < start + ttl)

step-IsBlocked :
    (start : ℕ) (key : Text) (call : Call) (r : ScanRegistry)
    → 0 < start
    → IsWithin start r.default_ttl_ms call
    → suc (size r.recently_completed) ≤ r.max_recently_completed_size
    → IsBlocked start key r
    → IsBlocked start key (step call r)
unfolding step acquire release
step-IsBlocked start key (acquires now k) r pos within room b =
    acquire_key-IsBlocked start now key (generate_key k) r pos within.0 within.1 b
step-IsBlocked start key (releases now k) r pos within room b =
    release_key-IsBlocked start now key (generate_key k) r within.0 room b
step-IsBlocked start key (cleans now) r pos within room b =
    cleanup_registry-IsBlocked start now key r pos within.0 within.1 b

run-IsBlocked :
    (start ttl : ℕ) (key : Text) (calls : List Call) (r : ScanRegistry)
    → 0 < start
    → r.default_ttl_ms ≡ ttl
    → All (IsWithin start ttl) calls
    → size r.recently_completed + length calls ≤ r.max_recently_completed_size
    → IsBlocked start key r
    → IsBlocked start key (run calls r) × ((run calls r).default_ttl_ms ≡ ttl)
unfolding run
run-IsBlocked start ttl key [] r pos same all room b = (b, same)
run-IsBlocked start ttl key (call ∷ calls) r pos same (within, all) room b =
    let g = step-Grows call r (ground arith) in
    let le = g.size_le in
    let limit = g.limit in
    run-IsBlocked start ttl key calls (step call r) pos (g.ttl ∙ same) all (ground arith)
      (step-IsBlocked start key call r pos (rw same within) (ground arith) b)

-- A granted key runs from then on.
acquire_key-granted :
    (now : ℕ) (key : Text) (r : ScanRegistry)
    → (acquire_key now key r).1 ≡ true
    → IsBlocked now key (acquire_key now key r).0
unfolding acquire_key lock
acquire_key-granted now key r given =
    elim (Bool-cases (is_running now (JsMap.get key r.in_flight))) [
      | inl y ↦ let wrong : false ≡ true = rw (y, if◌then◌else◌) at given in ground (arith, wrong)
      | inr n ↦ elim (Bool-cases (is_recent now (JsMap.get key r.recently_completed))) [
        | inl y ↦
            let wrong : false ≡ true = rw (n, if◌then◌else◌, y, if◌then◌else◌) at given in
            ground (arith, wrong)
        | inr m ↦
            let entry : ScanEntry = record {
              key = key;
              start_time = now;
              completed_time = none;
              ttl = r.default_ttl_ms;
            } in
            let rest = JsMap.delete key r.in_flight in
            let found =
              get-set key key entry rest
              ∙ ap (λ b. if b then some entry else JsMap.get key rest) (beq_self key) in
            rw (n, if◌then◌else◌)
              (rw (m, if◌then◌else◌) (record { blocked = inl (rw found (omega arith, refl)) }))
      ]
    ]

acquire_key-exclusive :
    (start now : ℕ) (key : Text) (calls : List Call) (r : ScanRegistry)
    → 0 < start
    → (acquire_key start key r).1 ≡ true
    → All (IsWithin start r.default_ttl_ms) calls
    → size r.recently_completed + suc (length calls) ≤ r.max_recently_completed_size
    → start ≤ now
    → now < start + r.default_ttl_ms
    → (acquire_key now key (run calls (acquire_key start key r).0)).1 ≡ false
acquire_key-exclusive start now key calls r pos given all room since before =
    let first = (acquire_key start key r).0 in
    let g = acquire_key-Grows start key r in
    let le = g.size_le in
    let limit = g.limit in
    let after =
      run-IsBlocked start r.default_ttl_ms key calls first pos g.ttl all (ground arith)
        (acquire_key-granted start key r given) in
    let same = after.1 in
    let before' : now < start + (run calls first).default_ttl_ms = rw same before in
    (acquire_key-refused start now key (run calls first) pos since before' after.0).0

-- When `acquire` grants a key at a time that is not 0, and acquires, releases and cleanups follow, on
-- any keys, each before a time to live has passed, then `acquire` of a scan with the same key is
-- refused until then, if the completed scans have room for one more per call, so that none is evicted.
pub acquire-exclusive :
    (start now : ℕ) (k j : ScanKey) (calls : List Call) (r : ScanRegistry)
    → 0 < start
    → (acquire start k r).1 ≡ true
    → generate_key j ≡ generate_key k
    → All (IsWithin start r.default_ttl_ms) calls
    → size r.recently_completed + suc (length calls) ≤ r.max_recently_completed_size
    → start ≤ now
    → now < start + r.default_ttl_ms
    → (acquire now j (run calls (acquire start k r).0)).1 ≡ false
unfolding acquire
acquire-exclusive start now k j calls r pos given same all room since before =
    ap (λ key. (acquire_key now key (run calls (acquire start k r).0)).1) same
    ∙ acquire_key-exclusive start now (generate_key k) calls r pos given all room since before
