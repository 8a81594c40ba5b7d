-- ===== src/GasBurstManager/Moves.antt =====
-- What one check does to the counts.
use liquid_bot.Prelude.{
  ℕ, ◌+◌, ◌≤◌, ◌<◌, ◌≡◌, ◌⊎◌, refl, sym, ap, ◌∙◌, Bool, ◌==◌, some, List, [], ◌∷◌, arith, leb,
  if◌then◌else◌, nat_eq, Bool-cases, Option-cases, inl, inr,
}
use liquid_bot.Prelude.Text.{Text, text_key}
use liquid_bot.Prelude.Result.{Result, Result-cases}
use liquid_bot.JsMap
use liquid_bot.JsMap.{JsMap}
use liquid_bot.JsMap.Laws.{get-set, get-delete}
use liquid_bot.GasBurstManager.{
  PendingTransaction, GasBurstManager, Fees, Check, Phase, timer, receipt, signature, broadcast,
  Reply, on_timer, is_mined, on_receipt, on_response, replaced, resume,
}
use liquid_bot.GasBurstManager.Counts.{count_of, bumps, holds, is_at, finds, holders, timers}

-- What a check does to the counts of a transaction. It takes hold of one that was replaced less often
-- than the maximum.
pub record Moves (id : ℕ) (tx_hash : Text) (p : Phase) (m n : GasBurstManager) (checks : List Check)
    : Type 0 where
  pub total :
      bumps id n + (holders id checks + timers id n.pending_txs checks)
      ≤ bumps id m + (holds id p + finds id m.pending_txs tx_hash p)
  pub held :
      (bumps id n + holders id checks ≤ bumps id m + holds id p)
      ⊎ ((bumps id m < m.max_bumps)
          × (bumps id n + holders id checks ≤ bumps id m + holds id p + 1))
  pub less : (h : Text) (f : Phase) → finds id n.pending_txs h f ≤ finds id m.pending_txs h f
  pub most : n.max_bumps ≡ m.max_bumps
  pub ids : n.next_object ≡ m.next_object

Moves-ends : (id : ℕ) (tx_hash : Text) (p : Phase) (m : GasBurstManager) → Moves id tx_hash p m m []
unfolding holders timers
Moves-ends id tx_hash p m = record {
  total = omega arith;
  held = inl (omega arith);
  less = λ h f. omega arith;
  most = refl;
  ids = refl;
}

pub finds-delete-le :
    (id : ℕ) (tx_hash : Text) (p : JsMap Text ℕ) (h : Text) (f : Phase)
    → finds id (JsMap.delete tx_hash p) h f ≤ finds id p h f
finds-delete-le id tx_hash p h timer =
    let e = get-delete tx_hash h p in
    elim (Bool-cases (text_key.beq tx_hash h)) [
      | inl y ↦ rw e (rw (y, if◌then◌else◌) (omega arith))
      | inr n ↦ rw e (rw (n, if◌then◌else◌) (omega arith))
    ]
finds-delete-le id tx_hash p h (receipt o) = omega arith
finds-delete-le id tx_hash p h (signature o fees) = omega arith
finds-delete-le id tx_hash p h (broadcast o fees) = omega arith

-- A check takes hold of the transaction that its hash finds.
starts-Moves :
    (id o : ℕ) (c : Check) (tx : PendingTransaction) (m : GasBurstManager)
    → JsMap.get c.tx_hash m.pending_txs ≡ some o
    → JsMap.get o m.objects ≡ some tx
    → tx.bump_count < m.max_bumps
    → Moves id c.tx_hash timer m m (record c { phase = receipt o } ∷ [])
unfolding holders timers bumps
starts-Moves id o c tx m found e below =
    let f = ap (is_at id) found in
    elim (Bool-cases (o == id)) [
      | inl y ↦
          let same : o ≡ id = ground (arith, y) in
          let b = ap count_of (ap (λ k. JsMap.get k m.objects) (sym same) ∙ e) in
          let one = f ∙ ap (λ t. if t then 1 else 0) y in
          record {
            total = rw (y, if◌then◌else◌) (omega (arith, one));
            held = inr (rw b below, rw (y, if◌then◌else◌) (omega arith));
            less = λ h p. omega arith;
            most = refl;
            ids = refl;
          }
      | inr n ↦ record {
        total = rw (n, if◌then◌else◌) (omega arith);
        held = inl (rw (n, if◌then◌else◌) (omega arith));
        less = λ h p. omega arith;
        most = refl;
        ids = refl;
      }
    ]

on_timer-Moves :
    (id : ℕ) (c : Check) (m : GasBurstManager) → Moves id c.tx_hash timer m m (on_timer c m)
unfolding on_timer
on_timer-Moves id c m = elim (Option-cases (JsMap.get c.tx_hash m.pending_txs)) [
  | inl n ↦ rw (n, on_timer) (Moves-ends id c.tx_hash timer m)
  | inr (o, found) ↦ elim (Option-cases (JsMap.get o m.objects)) [
    | inl n ↦ rw (found, on_timer) (rw (n, on_timer) (Moves-ends id c.tx_hash timer m))
    | inr (tx, e) ↦ elim (Bool-cases (leb m.max_bumps tx.bump_count)) [
      | inl y ↦
          rw (found, on_timer)
            (rw (e, on_timer) (rw (y, if◌then◌else◌) (Moves-ends id c.tx_hash timer m)))
      | inr n ↦
          rw (found, on_timer)
            (rw (e, on_timer)
              (rw (n, if◌then◌else◌) (starts-Moves id o c tx m found e (ground (arith, n)))))
    ]
  ]
]

on_receipt-Moves :
    (id o : ℕ) (c : Check) (found : Result Bool) (m : GasBurstManager)
    → Moves id c.tx_hash (receipt o) m (on_receipt c o found m).0 (on_receipt c o found m).1
unfolding on_receipt holders timers bumps
on_receipt-Moves id o c found m = elim (Bool-cases (is_mined found)) [
  | inl y ↦
      rw (y, if◌then◌else◌)
        (record {
          total = omega arith;
          held = inl (omega arith);
          less = finds-delete-le id c.tx_hash m.pending_txs;
          most = refl;
          ids = refl;
        })
  | inr n ↦ elim (Option-cases (JsMap.get o m.objects)) [
    | inl none_there ↦
        rw (n, if◌then◌else◌) (rw (none_there, on_receipt) (Moves-ends id c.tx_hash (receipt o) m))
    | inr (tx, e) ↦
        rw (n, if◌then◌else◌)
          (rw (e, on_receipt)
            (record {
              total = omega arith;
              held = inl (omega arith);
              less = λ h p. omega arith;
              most = refl;
              ids = refl;
            }))
  ]
]

on_response-Moves :
    (id o : ℕ) (c : Check) (fees : Fees) (hash : Text) (now : ℕ) (m : GasBurstManager)
    → Moves id c.tx_hash (broadcast o fees) m (on_response c o fees hash now m) []
unfolding on_response holders timers bumps
on_response-Moves id o c fees hash now m = elim (Option-cases (JsMap.get o m.objects)) [
  | inl n ↦ rw (n, on_response) (Moves-ends id c.tx_hash (broadcast o fees) m)
  | inr (tx, e) ↦
      let set = get-set o id (replaced hash fees tx) m.objects in
      let counts : count_of (JsMap.get id (JsMap.set o (replaced hash fees tx) m.objects))
          ≤ count_of (JsMap.get id m.objects) + (if o == id then 1 else 0) =
        elim (Bool-cases (o == id)) [
          | inr n ↦ rw set (rw (n, if◌then◌else◌) (omega arith))
          | inl y ↦
              let same : o ≡ id = ground (arith, y) in
              let b = ap count_of (ap (λ k. JsMap.get k m.objects) (sym same) ∙ e) in
              rw set (rw (y, if◌then◌else◌) (omega (arith, b)))
        ] in
      rw (e, on_response)
        (record {
          total = omega (arith, counts);
          held = inl (omega (arith, counts));
          less = λ h p. omega arith;
          most = refl;
          ids = refl;
        })
]

pub resume-Moves :
    (id : ℕ) (c : Check) (p : Phase) (r : Reply) (m : GasBurstManager)
    → Moves id c.tx_hash p m (resume c p r m).0 (resume c p r m).1
unfolding resume holders timers
resume-Moves id c timer r m = on_timer-Moves id c m
resume-Moves id c (receipt o) r m = on_receipt-Moves id o c r.receipt_found m
resume-Moves id c (signature o fees) r m = elim (Result-cases r.signed) [
  | inr (message, e) ↦ rw (e, resume) (Moves-ends id c.tx_hash (signature o fees) m)
  | inl (signed_tx, e) ↦
      rw (e, resume)
        (record {
          total = omega arith;
          held = inl (omega arith);
          less = λ h p. omega arith;
          most = refl;
          ids = refl;
        })
]
resume-Moves id c (broadcast o fees) r m = elim (Result-cases r.response) [
  | inr (message, e) ↦ rw (e, resume) (Moves-ends id c.tx_hash (broadcast o fees) m)
  | inl (hash, e) ↦ rw (e, resume) (on_response-Moves id o c fees hash r.time m)
]
