-- ===== src/GasBurstManager.antt =====
-- backend/src/exec/fastpath/GasBurstManager.ts: two timers for each tracked transaction, each of which
-- may replace it by one that pays more. A check waits three times, and others run meanwhile: a check
-- is a value that says what it waits for. A transaction is an object that checks share with the map,
-- so that it is a number here, with the fields in `objects`. Percentages are naturals and products
-- exact. Metrics are left out.
pub mod Counts
pub mod Moves
pub mod Bounded
pub mod Bound
use liquid_bot.Prelude.{
  ℕ, zero, suc, ◌+◌, ◌*◌, ◌/◌, ◌≡◌, ◌==◌, Bool, true, false, ◌||◌, Option, none, some, List, [],
  ◌∷◌, ◌++◌, map, leb, if◌then◌else◌, nat_eq,
}
use liquid_bot.Prelude.Text.{Text, text_key}
use liquid_bot.Prelude.Result.{Result, ok, err}
use liquid_bot.JsMap
use liquid_bot.JsMap.{JsMap}

pub record PendingTransaction : Type 0 where
  pub tx_hash : Text
  pub signed_tx : Text
  pub nonce : ℕ
  pub gas_price : ℕ
  pub max_fee_per_gas : Option ℕ
  pub max_priority_fee_per_gas : Option ℕ
  pub sent_at : ℕ
  pub bump_count : ℕ

pub data Stage : Type 0 where
  first second : Stage

pub record GasBumpAttempt : Type 0 where
  pub original_tx_hash : Text
  pub bump_stage : Stage
  pub new_gas_price : ℕ
  pub timestamp : ℕ

pub record GasBurstManager : Type 0 where
  pub enabled : Bool
  pub first_pct : ℕ
  pub second_pct : ℕ
  pub max_bumps : ℕ
  pub objects : JsMap ℕ PendingTransaction
  pub next_object : ℕ
  pub pending_txs : JsMap Text ℕ
  pub bump_attempts : JsMap Text (List GasBumpAttempt)

unfoldable pub create : Bool → ℕ → ℕ → ℕ → GasBurstManager
create enabled first_pct second_pct max_bumps = record {
  enabled = enabled;
  first_pct = first_pct;
  second_pct = second_pct;
  max_bumps = max_bumps;
  objects = [];
  next_object = 0;
  pending_txs = [];
  bump_attempts = [];
}

-- The new prices, as they are computed before the replacement is signed.
pub record Fees : Type 0 where
  pub gas_price : ℕ
  pub max_fee_per_gas : Option ℕ
  pub max_priority_fee_per_gas : Option ℕ

-- What a check waits for: its timer, the receipt, the signature, the answer to the broadcast. From
-- the receipt on it holds the object that it found.
pub data Phase : Type 0 where
  timer : Phase
  receipt : ℕ → Phase
  signature : ℕ → Fees → Phase
  broadcast : ℕ → Fees → Phase

pub record Check : Type 0 where
  pub tx_hash : Text
  pub stage : Stage
  pub phase : Phase

abbrev pub checks_of : Text → List Check
checks_of tx_hash =
    record { tx_hash = tx_hash; stage = first; phase = timer }
    ∷ record { tx_hash = tx_hash; stage = second; phase = timer }
    ∷ []

-- `trackTransaction` and the timers that it sets.
unfoldable pub track : PendingTransaction → GasBurstManager → GasBurstManager × List Check
track tx m =
    if m.enabled
    then (
      record m {
        objects = JsMap.set m.next_object (record tx { bump_count = 0 }) m.objects;
        next_object = suc m.next_object;
        pending_txs = JsMap.set tx.tx_hash m.next_object m.pending_txs;
        bump_attempts = JsMap.set tx.tx_hash [] m.bump_attempts;
      },
      checks_of tx.tx_hash,
    )
    else (m, [])

abbrev pub bump_pct : Stage → GasBurstManager → ℕ
bump_pct first m = m.first_pct
bump_pct second m = m.second_pct

-- `BigInt(Math.floor(Number(price) * bumpMultiplier))`
unfoldable pub bumped : ℕ → ℕ → ℕ
bumped pct price = price * (100 + pct) / 100

abbrev pub legacy_fees : ℕ → PendingTransaction → Fees
legacy_fees pct tx = record {
  gas_price = bumped pct tx.gas_price;
  max_fee_per_gas = none;
  max_priority_fee_per_gas = none;
}

unfoldable pub dynamic_fees : ℕ → PendingTransaction → Option ℕ → Option ℕ → Fees
dynamic_fees pct tx (some fee) (some tip) =
    if (fee == 0) || (tip == 0) then legacy_fees pct tx else record {
      gas_price = bumped pct fee;
      max_fee_per_gas = some (bumped pct fee);
      max_priority_fee_per_gas = some (bumped pct tip);
    }
dynamic_fees pct tx fee tip = legacy_fees pct tx

unfoldable pub new_fees : ℕ → PendingTransaction → Fees
unfolding dynamic_fees
new_fees pct tx = dynamic_fees pct tx tx.max_fee_per_gas tx.max_priority_fee_per_gas

-- What a check is answered. `receipt_found` is the receipt of the hash that was tracked, also when the
-- transaction was replaced; `signed` is an error also where the original cannot be parsed.
pub record Reply : Type 0 where
  pub receipt_found : Result Bool
  pub signed : Result Text
  pub response : Result Text
  pub time : ℕ

-- The timer fires: `checkAndBump` up to its first wait, or its end.
unfoldable pub on_timer : Check → GasBurstManager → List Check
on_timer c m = elim (JsMap.get c.tx_hash m.pending_txs) [
  | none ↦ []
  | some id ↦ elim (JsMap.get id m.objects) [
    | none ↦ []
    | some tx ↦ if leb m.max_bumps tx.bump_count then [] else record c { phase = receipt id } ∷ []
  ]
]

abbrev pub is_mined : Result Bool → Bool
is_mined (ok found) = found
is_mined (err message) = false

-- From the receipt on to the signature. A receipt that cannot be read counts as none.
unfoldable pub on_receipt : Check → ℕ → Result Bool → GasBurstManager → GasBurstManager × List Check
unfolding new_fees
on_receipt c id found m =
    if is_mined found
    then (record m { pending_txs = JsMap.delete c.tx_hash m.pending_txs }, [])
    else elim (JsMap.get id m.objects) [
      | none ↦ (m, [])
      | some tx ↦ (m, record c { phase = signature id (new_fees (bump_pct c.stage m) tx) } ∷ [])
    ]

abbrev pub push_attempt :
    Text → GasBumpAttempt → JsMap Text (List GasBumpAttempt) → JsMap Text (List GasBumpAttempt)
push_attempt tx_hash attempt attempts = elim (JsMap.get tx_hash attempts) [
  | none ↦ attempts
  | some earlier ↦ JsMap.set tx_hash (earlier ++ (attempt ∷ [])) attempts
]

abbrev pub replaced : Text → Fees → PendingTransaction → PendingTransaction
replaced hash fees tx = record tx {
  bump_count = tx.bump_count + 1;
  tx_hash = hash;
  gas_price = fees.gas_price;
  max_fee_per_gas = fees.max_fee_per_gas;
  max_priority_fee_per_gas = fees.max_priority_fee_per_gas;
}

-- The replacement was taken.
unfoldable pub on_response : Check → ℕ → Fees → Text → ℕ → GasBurstManager → GasBurstManager
on_response c id fees hash now m = elim (JsMap.get id m.objects) [
  | none ↦ m
  | some tx ↦ record m {
    bump_attempts =
        push_attempt c.tx_hash
          (record {
            original_tx_hash = c.tx_hash;
            bump_stage = c.stage;
            new_gas_price = fees.gas_price;
            timestamp = now;
          })
          m.bump_attempts;
    objects = JsMap.set id (replaced hash fees tx) m.objects;
  }
]

-- A check goes on with its answer, to its next wait or its end.
unfoldable pub resume : Check → Phase → Reply → GasBurstManager → GasBurstManager × List Check
unfolding on_timer on_receipt on_response
resume c timer r m = (m, on_timer c m)
resume c (receipt id) r m = on_receipt c id r.receipt_found m
resume c (signature id fees) r m = elim r.signed [
  | err message ↦ (m, [])
  | ok signed_tx ↦ (m, record c { phase = broadcast id fees } ∷ [])
]
resume c (broadcast id fees) r m = elim r.response [
  | err message ↦ (m, [])
  | ok hash ↦ (on_response c id fees hash r.time m, [])
]

unfoldable pub confirm_transaction : Text → GasBurstManager → GasBurstManager
confirm_transaction tx_hash m = record m { pending_txs = JsMap.delete tx_hash m.pending_txs }

unfoldable pub get_bump_attempts : Text → GasBurstManager → List GasBumpAttempt
get_bump_attempts tx_hash m = elim (JsMap.get tx_hash m.bump_attempts) [
  | none ↦ []
  | some attempts ↦ attempts
]

unfoldable pub get_pending_transactions : GasBurstManager → List (Option PendingTransaction)
get_pending_transactions m = map (λ id. JsMap.get id m.objects) (JsMap.values m.pending_txs)

-- Timers and checks go on.
unfoldable pub clear_tracking : GasBurstManager → GasBurstManager
clear_tracking m = record m { pending_txs = []; bump_attempts = [] }
