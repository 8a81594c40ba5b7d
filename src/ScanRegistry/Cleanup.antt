-- ===== src/ScanRegistry/Cleanup.antt =====
-- What is known of a granted key outlives the removal of old entries.
use liquid_bot.Prelude.{
  ℕ, ◌+◌, ◌-◌, ◌≤◌, ◌<◌, ◌≡◌, ap, ◌∙◌, Bool, true, none, some, [], ◌∷◌, arith, keep, ltb,
  if◌then◌else◌, Bool-cases, Option-cases, inl, inr,
}
use liquid_bot.Prelude.Text.{Text, text_key}
use liquid_bot.JsMap
use liquid_bot.JsMap.{JsMap, size}
use liquid_bot.ScanRegistry.{
  ScanEntry, ScanRegistry, completed_at, keeps_running, keeps_recent, cleanup_registry,
}
use liquid_bot.ScanRegistry.Exclusive.{Stands, Ended, IsBlocked}

module _ (p : Text × ScanEntry → Bool) (entry : ScanEntry)
    (passes : (k : Text) → p (k, entry) ≡ true) where
  get-keep :
      (key : Text) (m : JsMap Text ScanEntry)
      → JsMap.get key m ≡ some entry
      → JsMap.get key (keep p m) ≡ some entry
  unfolding JsMap.get
  get-keep key [] h = h
  get-keep key ((j, e) ∷ m) h = elim (Bool-cases (text_key.beq j key)) [
    | inl y ↦
        let same : some e ≡ some entry = rw y at h in
        let e' : e ≡ entry = cc in
        let q : p (j, e) ≡ true = ap (λ x. p (j, x)) e' ∙ passes j in
        rw (q, if◌then◌else◌) (rw y same)
    | inr n ↦
        let h' : JsMap.get key m ≡ some entry = rw n at h in
        let ih = get-keep key m h' in
        elim (Bool-cases (p (j, e))) [
          | inl q ↦ rw (q, if◌then◌else◌) (rw n ih)
          | inr q ↦ rw (q, if◌then◌else◌) ih
        ]
  ]

Stands-keep :
    (start ttl now : ℕ) (key : Text) (m : JsMap Text ScanEntry)
    → start ≤ now
    → now < start + ttl
    → Stands start ttl (JsMap.get key m)
    → Stands start ttl (JsMap.get key (keep (keeps_running now) m))
Stands-keep start ttl now key m since before h = elim (Option-cases (JsMap.get key m)) [
  | inl n ↦ absurd (rw n at h)
  | inr (entry, e) ↦
      let h' : Stands start ttl (some entry) = rw e at h in
      rw (get-keep (keeps_running now) entry (λ k. ground arith) key m e) h'
]

Ended-keep :
    (start ttl now : ℕ) (key : Text) (m : JsMap Text ScanEntry)
    → 0 < start
    → start ≤ now
    → now < start + ttl
    → Ended start ttl (JsMap.get key m)
    → Ended start ttl (JsMap.get key (keep (keeps_recent now) m))
Ended-keep start ttl now key m pos since before h = elim (Option-cases (JsMap.get key m)) [
  | inl n ↦ absurd (rw n at h)
  | inr (entry, e) ↦
      let h' : Ended start ttl (some entry) = rw e at h in
      rw (get-keep (keeps_recent now) entry (λ k. recent entry h') key m e) h'
]
  where
    recent :
        (entry : ScanEntry)
        → Ended start ttl (some entry)
        → (elim (completed_at entry) [ none ↦ true | some t ↦ ltb (now - t) entry.ttl ]) ≡ true
    recent entry (t, done, late, same) =
        let given : completed_at entry ≡ some t = rw done (ground arith) in rw given (ground arith)

pub cleanup_registry-IsBlocked :
    (start now : ℕ) (key : Text) (r : ScanRegistry)
    → 0 < start
    → start ≤ now
    → now < start + r.default_ttl_ms
    → IsBlocked start key r
    → IsBlocked start key (cleanup_registry now r).0
unfolding cleanup_registry
cleanup_registry-IsBlocked start now key r pos since before b = record {
  blocked = elim b.blocked [
    | inl h ↦ inl (Stands-keep start r.default_ttl_ms now key r.in_flight since before h)
    | inr h ↦
        inr (Ended-keep start r.default_ttl_ms now key r.recently_completed pos since before h)
  ];
}
