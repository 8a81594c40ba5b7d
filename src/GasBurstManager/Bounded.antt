-- ===== src/GasBurstManager/Bounded.antt =====
-- What each step of a world leaves of the replacements of a transaction and the checks that wait.
use liquid_bot.Prelude.{
  ℕ, suc, ◌+◌, ◌≤◌, ◌<◌, ◌≡◌, refl, ap, ◌∙◌, Bool, false, ◌==◌, some, List, [], ◌∷◌, ◌++◌, arith,
  All, if◌then◌else◌, nat_eq, Bool-cases, inl, inr, beq_self,
}
use liquid_bot.Prelude.Text.{Text, text_key}
use liquid_bot.JsMap
use liquid_bot.JsMap.{JsMap}
use liquid_bot.JsMap.Laws.{get-set}
use liquid_bot.GasBurstManager.{
  PendingTransaction, GasBurstManager, Check, Phase, timer, receipt, signature, broadcast, Reply,
  checks_of, track, resume, confirm_transaction, clear_tracking,
}
use liquid_bot.GasBurstManager.Counts.{
  World, IsFree, Step, tracks, goes_on, confirms, clears, count_of, bumps, is_at, finds, holders,
  timers, holders-append, timers-append, timers-le, timers-same,
}
use liquid_bot.GasBurstManager.Moves.{resume-Moves, finds-delete-le}

-- The largest number of replacements, from `maxBumps`. A maximum of 1 allows two as well: one check
-- may take hold of the transaction while the other one is about to replace it.
unfoldable pub most_bumps : ℕ → ℕ
most_bumps max = if max == 0 then 0 else 2

most_bumps-two : (max : ℕ) → 0 < max → most_bumps max ≡ 2
unfolding most_bumps
most_bumps-two max h = ground arith

-- A transaction that is not tracked yet counts for nothing; the replacements and the checks that may
-- follow are two at most.
pub record IsBounded (id : ℕ) (w : World) : Type 0 where
  pub unused :
      w.manager.next_object ≤ id
      → bumps id w.manager + (holders id w.checks + timers id w.manager.pending_txs w.checks) ≡ 0
  pub twice :
      bumps id w.manager + (holders id w.checks + timers id w.manager.pending_txs w.checks) ≤ 2
  pub capped : bumps id w.manager + holders id w.checks ≤ most_bumps w.manager.max_bumps

-- Fewer counts in the same manager.
IsBounded-less :
    (id : ℕ) (w : World) (n : GasBurstManager)
    → n.max_bumps ≡ w.manager.max_bumps
    → n.next_object ≡ w.manager.next_object
    → bumps id n ≡ bumps id w.manager
    → timers id n.pending_txs w.checks ≤ timers id w.manager.pending_txs w.checks
    → IsBounded id w
    → IsBounded id (record w { manager = n })
IsBounded-less id w n most ids same less b =
    let two = b.twice in
    let cap = b.capped in
    let limit = ap most_bumps most in
    record {
      unused = λ h.
          let zero_before = b.unused (omega (arith, ids, h)) in
          omega (arith, zero_before, same, less);
      twice = omega (arith, two, same, less);
      capped = omega (arith, cap, same, limit);
    }

goes_on-IsBounded :
    (id : ℕ) (w : World) (before after : List Check) (c : Check) (r : Reply)
    → w.checks ≡ before ++ (c ∷ after)
    → IsBounded id w
    → IsBounded id (record {
      manager = (resume c c.phase r w.manager).0;
      checks = before ++ ((resume c c.phase r w.manager).1 ++ after);
    })
unfolding holders timers
goes_on-IsBounded id w before after c r split b =
    let m = w.manager in
    let n = (resume c c.phase r m).0 in
    let more = (resume c c.phase r m).1 in
    let moves = resume-Moves id c c.phase r m in
    let total = moves.total in
    let most = moves.most in
    let ids = moves.ids in
    let two = b.twice in
    let cap = b.capped in
    let limit = ap most_bumps most in
    let h0 = ap (holders id) split ∙ holders-append id before (c ∷ after) in
    let t0 =
      ap (timers id m.pending_txs) split ∙ timers-append id m.pending_txs before (c ∷ after) in
    let h1 = holders-append id before (more ++ after) in
    let h2 = holders-append id more after in
    let t1 = timers-append id n.pending_txs before (more ++ after) in
    let t2 = timers-append id n.pending_txs more after in
    let tb = timers-le id m.pending_txs n.pending_txs before moves.less in
    let ta = timers-le id m.pending_txs n.pending_txs after moves.less in
    record {
      unused = λ h.
          let zero_before = b.unused (omega (arith, ids, h)) in
          omega (arith, zero_before, total, h0, t0, h1, h2, t1, t2, tb, ta);
      twice = omega (arith, two, total, h0, t0, h1, h2, t1, t2, tb, ta);
      capped = elim moves.held [
        | inl less ↦ omega (arith, cap, less, h0, h1, h2, limit)
        | inr (below, more_by_one) ↦ omega (
          arith,
          most_bumps-two m.max_bumps (omega (arith, below)),
          limit,
          two,
          total,
          h0,
          t0,
          h1,
          h2,
          t1,
          t2,
          tb,
          ta,
        )
      ];
    }

finds-nil-le : (id : ℕ) (p : JsMap Text ℕ) (h : Text) (f : Phase) → finds id [] h f ≤ finds id p h f
unfolding JsMap.get
finds-nil-le id p h timer = omega arith
finds-nil-le id p h (receipt o) = omega arith
finds-nil-le id p h (signature o fees) = omega arith
finds-nil-le id p h (broadcast o fees) = omega arith

-- What the start of tracking leaves to the checks that wait already.
finds-set_other :
    (id o : ℕ) (tx_hash : Text) (p : JsMap Text ℕ) (checks : List Check)
    → IsFree tx_hash checks
    → All
        (λ c. finds id (JsMap.set tx_hash o p) c.tx_hash c.phase ≡ finds id p c.tx_hash c.phase)
        checks
finds-set_other id o tx_hash p [] h = tt
finds-set_other id o tx_hash p (c ∷ checks) (other, h) =
    (one c.phase, finds-set_other id o tx_hash p checks h)
  where
    one : (f : Phase) → finds id (JsMap.set tx_hash o p) c.tx_hash f ≡ finds id p c.tx_hash f
    one timer =
        let differs : text_key.beq tx_hash c.tx_hash ≡ false =
          ground (
            arith,
            text_key.beq_iff tx_hash c.tx_hash,
            text_key.beq_iff c.tx_hash tx_hash,
            other,
          ) in
        ap (is_at id) (get-set tx_hash c.tx_hash o p)
        ∙ ap (λ b. is_at id (if b then some o else JsMap.get c.tx_hash p)) differs
    one (receipt x) = refl
    one (signature x fees) = refl
    one (broadcast x fees) = refl

-- What `track` makes of the manager when it is enabled.
abbrev pub tracked : PendingTransaction → GasBurstManager → GasBurstManager
tracked tx m = record m {
  objects = JsMap.set m.next_object (record tx { bump_count = 0 }) m.objects;
  next_object = suc m.next_object;
  pending_txs = JsMap.set tx.tx_hash m.next_object m.pending_txs;
  bump_attempts = JsMap.set tx.tx_hash [] m.bump_attempts;
}

tracked-IsBounded :
    (id : ℕ) (w : World) (tx : PendingTransaction)
    → IsFree tx.tx_hash w.checks
    → IsBounded id w
    → IsBounded id
        (record { manager = tracked tx w.manager; checks = checks_of tx.tx_hash ++ w.checks })
unfolding bumps holders timers
tracked-IsBounded id w tx free b =
    let m = w.manager in
    let o = m.next_object in
    let two = b.twice in
    let cap = b.capped in
    let others =
      timers-same id m.pending_txs (JsMap.set tx.tx_hash o m.pending_txs) w.checks
        (finds-set_other id o tx.tx_hash m.pending_txs w.checks free) in
    let found = ap (is_at id) (
      get-set tx.tx_hash tx.tx_hash o m.pending_txs
      ∙ ap (λ t. if t then some o else JsMap.get tx.tx_hash m.pending_txs) (beq_self tx.tx_hash)) in
    let object = ap count_of (get-set o id (record tx { bump_count = 0 }) m.objects) in
    elim (Bool-cases (o == id)) [
      | inl new ↦
          let same : o ≡ id = ground (arith, new) in
          let zero_before = b.unused (omega (arith, same)) in
          let none_yet =
            object
            ∙ ap
                (λ t.
                  count_of
                    (if t then some (record tx { bump_count = 0 }) else JsMap.get id m.objects))
                new in
          let one = found ∙ ap (λ t. if t then 1 else 0) new in
          record {
            unused = λ h. absurd (omega (arith, h, same));
            twice = omega (arith, zero_before, none_yet, one, others);
            capped = omega (arith, zero_before, none_yet);
          }
      | inr old ↦
          let as_before =
            object
            ∙ ap
                (λ t.
                  count_of
                    (if t then some (record tx { bump_count = 0 }) else JsMap.get id m.objects))
                old in
          let none_new = found ∙ ap (λ t. if t then 1 else 0) old in
          record {
            unused = λ h.
                let zero_before = b.unused (omega (arith, h)) in
                omega (arith, zero_before, as_before, none_new, others);
            twice = omega (arith, two, as_before, none_new, others);
            capped = omega (arith, cap, as_before);
          }
    ]

tracks-IsBounded :
    (id : ℕ) (w : World) (tx : PendingTransaction)
    → IsFree tx.tx_hash w.checks
    → IsBounded id w
    → IsBounded id
        (record { manager = (track tx w.manager).0; checks = (track tx w.manager).1 ++ w.checks })
unfolding track
tracks-IsBounded id w tx free b = elim (Bool-cases w.manager.enabled) [
  | inr off ↦
      let same : track tx w.manager ≡ (w.manager, []) = ap (choose w.manager) off in
      rw same (record { unused = b.unused; twice = b.twice; capped = b.capped })
  | inl on ↦
      let same : track tx w.manager ≡ (tracked tx w.manager, checks_of tx.tx_hash) =
        ap (choose w.manager) on in
      rw same (tracked-IsBounded id w tx free b)
]
  where
    choose : GasBurstManager → Bool → GasBurstManager × List Check
    choose m b = if b then (tracked tx m, checks_of tx.tx_hash) else (m, [])

pub Step-IsBounded : (id : ℕ) (w : World) {v : World} → Step w v → IsBounded id w → IsBounded id v
unfolding confirm_transaction clear_tracking bumps
Step-IsBounded id w (tracks tx free) b = tracks-IsBounded id w tx free b
Step-IsBounded id w (goes_on before after c r split) b =
    goes_on-IsBounded id w before after c r split b
Step-IsBounded id w (confirms tx_hash) b =
    IsBounded-less id w (confirm_transaction tx_hash w.manager) refl refl refl
      (timers-le id w.manager.pending_txs (JsMap.delete tx_hash w.manager.pending_txs) w.checks
        (finds-delete-le id tx_hash w.manager.pending_txs))
      b
Step-IsBounded id w clears b =
    IsBounded-less id w (clear_tracking w.manager) refl refl refl
      (timers-le id w.manager.pending_txs [] w.checks (finds-nil-le id w.manager.pending_txs)) b
