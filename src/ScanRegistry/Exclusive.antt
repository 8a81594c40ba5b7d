-- ===== src/ScanRegistry/Exclusive.antt =====
-- What is known of a key that was granted, and what keeps it.
use liquid_bot.Prelude.{
  ℕ, suc, ◌+◌, ◌≤◌, ◌<◌, ◌≡◌, ◌⊎◌, refl, ap, ◌∙◌, true, false, Option, none, some, arith, ltb,
  if◌then◌else◌, Bool-cases, Option-cases, inl, inr,
}
use liquid_bot.Prelude.Text.{Text, text_key}
use liquid_bot.JsMap
use liquid_bot.JsMap.{JsMap, size}
use liquid_bot.JsMap.Laws.{get-set, get-delete, size-set}
use liquid_bot.ScanRegistry.{
  ScanEntry, ScanRegistry, is_running, completed_at, is_recent, suppress, lock, acquire_key,
  evict_if_over, release_key, drop_timed, drop_completed,
}

-- The key was granted at `start` or later, and its scan runs or has ended since.
abbrev pub Stands : ℕ → ℕ → Option ScanEntry → Type 0
Stands start ttl none = ⊥
Stands start ttl (some entry) = (start ≤ entry.start_time) × (entry.ttl ≡ ttl)

abbrev pub Ended : ℕ → ℕ → Option ScanEntry → Type 0
Ended start ttl none = ⊥
Ended start ttl (some entry) =
    (t : ℕ) × (entry.completed_time ≡ some t) × (start ≤ t) × (entry.ttl ≡ ttl)

pub record IsBlocked (start : ℕ) (key : Text) (r : ScanRegistry) : Type 0 where
  pub blocked :
      Stands start r.default_ttl_ms (JsMap.get key r.in_flight)
      ⊎ Ended start r.default_ttl_ms (JsMap.get key r.recently_completed)

pub Stands-running :
    (start ttl now : ℕ) (o : Option ScanEntry)
    → Stands start ttl o
    → start ≤ now
    → now < start + ttl
    → is_running now o ≡ true
Stands-running start ttl now none h since before = absurd h
Stands-running start ttl now (some entry) h since before = ground arith

pub Ended-recent :
    (start ttl now : ℕ) (o : Option ScanEntry)
    → 0 < start
    → Ended start ttl o
    → start ≤ now
    → now < start + ttl
    → is_recent now o ≡ true
Ended-recent start ttl now none pos h since before = absurd h
Ended-recent start ttl now (some entry) pos (t, e, late, same) since before =
    let given : completed_at entry ≡ some t = rw e (ground arith) in rw given (ground arith)

-- A blocked key is refused, and stays blocked.
pub acquire_key-refused :
    (start now : ℕ) (key : Text) (r : ScanRegistry)
    → 0 < start
    → start ≤ now
    → now < start + r.default_ttl_ms
    → IsBlocked start key r
    → ((acquire_key now key r).1 ≡ false) × IsBlocked start key (acquire_key now key r).0
unfolding acquire_key
acquire_key-refused start now key r pos since before b =
    elim (Bool-cases (is_running now (JsMap.get key r.in_flight))) [
      | inl y ↦ rw (y, if◌then◌else◌) (refl, record { blocked = b.blocked })
      | inr n ↦ elim b.blocked [
        | inl h ↦
            let y =
              Stands-running start r.default_ttl_ms now (JsMap.get key r.in_flight) h since
                before in
            absurd (ground (arith, y))
        | inr h ↦
            let y =
              Ended-recent start r.default_ttl_ms now (JsMap.get key r.recently_completed) pos h
                since before in
            rw (n, if◌then◌else◌) (rw (y, if◌then◌else◌) (refl, record { blocked = inr h }))
      ]
    ]

-- What is known of a key hangs on its entries alone.
IsBlocked-same :
    (start : ℕ) (key : Text) (r s : ScanRegistry)
    → s.default_ttl_ms ≡ r.default_ttl_ms
    → JsMap.get key s.in_flight ≡ JsMap.get key r.in_flight
    → JsMap.get key s.recently_completed ≡ JsMap.get key r.recently_completed
    → IsBlocked start key r
    → IsBlocked start key s
IsBlocked-same start key r s ttl running recent b = record {
  blocked = elim b.blocked [ inl h ↦ inl (rw (ttl, running) h) | inr h ↦ inr (rw (ttl, recent) h) ];
}

module _ (key other : Text) (differs : text_key.beq other key ≡ false) where
  get-delete_other :
      (m : JsMap Text ScanEntry) → JsMap.get key (JsMap.delete other m) ≡ JsMap.get key m
  get-delete_other m =
      get-delete other key m ∙ ap (λ b. if b then none else JsMap.get key m) differs

  get-set_other :
      (entry : ScanEntry) (m : JsMap Text ScanEntry)
      → JsMap.get key (JsMap.set other entry m) ≡ JsMap.get key m
  get-set_other entry m =
      get-set other key entry m ∙ ap (λ b. if b then some entry else JsMap.get key m) differs

  get-drop_timed :
      (t : Option ℕ) (m : JsMap Text ScanEntry)
      → JsMap.get key (drop_timed other t m) ≡ JsMap.get key m
  get-drop_timed none m = refl
  get-drop_timed (some t) m = get-delete_other m

  get-drop_completed :
      (o : Option ScanEntry) (m : JsMap Text ScanEntry)
      → JsMap.get key (drop_completed other o m) ≡ JsMap.get key m
  get-drop_completed none m = refl
  get-drop_completed (some entry) m = get-drop_timed (completed_at entry) m

  -- A call on another key leaves what is known of this one.
  pub acquire_key-IsBlocked_other :
      (start now : ℕ) (r : ScanRegistry)
      → IsBlocked start key r
      → IsBlocked start key (acquire_key now other r).0
  unfolding acquire_key lock
  acquire_key-IsBlocked_other start now r b =
      elim (Bool-cases (is_running now (JsMap.get other r.in_flight))) [
        | inl y ↦ rw (y, if◌then◌else◌) (record { blocked = b.blocked })
        | inr n ↦ elim (Bool-cases (is_recent now (JsMap.get other r.recently_completed))) [
          | inl y ↦
              rw (n, if◌then◌else◌)
                (rw (y, if◌then◌else◌)
                  (IsBlocked-same start key r
                    (suppress (record r { in_flight = JsMap.delete other r.in_flight })) refl
                    (get-delete_other r.in_flight) refl b))
          | inr m ↦
              rw (n, if◌then◌else◌)
                (rw (m, if◌then◌else◌)
                  (IsBlocked-same start key r (lock now other r) refl
                    (get-set_other _ (JsMap.delete other r.in_flight)
                      ∙ get-delete_other r.in_flight)
                    (get-drop_completed (JsMap.get other r.recently_completed) r.recently_completed)
                    b))
        ]
      ]

-- No entry is evicted while there is room for one more.
pub evict_if_over-room :
    (limit : ℕ) (key : Text) (entry : ScanEntry) (m : JsMap Text ScanEntry)
    → suc (size m) ≤ limit
    → evict_if_over limit (JsMap.set key entry m) ≡ JsMap.set key entry m
evict_if_over-room limit key entry m room =
    let fits : ltb limit (size (JsMap.set key entry m)) ≡ false =
      elim (Bool-cases (JsMap.has key m)) [
        | inl y ↦ let e = rw (y, if◌then◌else◌) at (size-set key entry m) in ground arith
        | inr n ↦ let e = rw (n, if◌then◌else◌) at (size-set key entry m) in ground arith
      ] in
    rw (fits, if◌then◌else◌) refl

pub release_key-IsBlocked :
    (start now : ℕ) (key other : Text) (r : ScanRegistry)
    → start ≤ now
    → suc (size r.recently_completed) ≤ r.max_recently_completed_size
    → IsBlocked start key r
    → IsBlocked start key (release_key now other r)
unfolding release_key
release_key-IsBlocked start now key other r since room b =
    elim (Option-cases (JsMap.get other r.in_flight)) [
      | inl n ↦ rw (n, release_key) b
      | inr (entry, e) ↦
          let done : ScanEntry = record {
            key = other;
            start_time = entry.start_time;
            completed_time = some now;
            ttl = r.default_ttl_ms;
          } in
          let after : ScanRegistry = record r {
            in_flight = JsMap.delete other r.in_flight;
            recently_completed = JsMap.set other done r.recently_completed;
          } in
          rw (e, release_key)
            (rw
              (evict_if_over-room r.max_recently_completed_size other done r.recently_completed
                room)
              (elim (Bool-cases (text_key.beq other key)) [
                | inr n ↦
                    IsBlocked-same start key r after refl (get-delete_other key other n r.in_flight)
                      (get-set_other key other n done r.recently_completed) b
                | inl y ↦
                    let found =
                      get-set other key done r.recently_completed
                      ∙ ap (λ b. if b then some done else JsMap.get key r.recently_completed) y in
                    record { blocked = inr (rw found (now, refl, since, refl)) }
              ]))
    ]
