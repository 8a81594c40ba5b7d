-- ===== src/TxBroadcaster.antt =====
-- backend-v2/src/execution/txBroadcaster.ts: a transaction sent to all endpoints, and sent again
-- with higher fees until it is mined. The wallet and the endpoints are parameters. The clock is the
-- time since the start of the wait, as each round of the wait reads it. The rounds take fuel. The
-- requests that the wallet signs are kept, so that they can be spoken of. Log lines are left out.
pub mod Fate
pub mod Verdict
pub mod Requests
use liquid_bot.Prelude.{
  ℕ, zero, suc, ◌+◌, ◌*◌, ◌/◌, ◌^◌, Bool, true, false, ◌&&◌, Option, none, some, List, [], ◌∷◌, map,
  ltb, ◌==◌, if◌then◌else◌, or_number,
}
use liquid_bot.Prelude.Text.{Text, codes, truthy}
use liquid_bot.Prelude.Result.{Result, ok, err}

-- Of a receipt the status and the hash are read.
pub record TransactionReceipt : Type 0 where
  pub status : Option ℕ
  pub hash : Text

pub data BroadcastResult : Type 0 where
  mined : Text → TransactionReceipt → Option Text → BroadcastResult
  pending : Text → Option Text → BroadcastResult
  failed : Text → Option Text → BroadcastResult

pub record BroadcastOptions : Type 0 where
  pub rpc_urls : List Text
  pub replacement_delay_ms : ℕ
  pub max_replacements : ℕ
  pub priority_fee_bump_percent : ℕ

-- The constructor.
unfoldable pub create : List Text → Option ℕ → Option ℕ → Option ℕ → BroadcastOptions
create urls delay replacements bump = record {
  rpc_urls = urls;
  replacement_delay_ms = or_number delay 3000;
  max_replacements = or_number replacements 3;
  priority_fee_bump_percent = or_number bump 20;
}

pub record TransactionRequest : Type 0 where
  pub nonce : Option ℕ
  pub max_priority_fee_per_gas : Option ℕ
  pub max_fee_per_gas : Option ℕ

-- What is signed, beside the fields of the request that stay as they are.
pub record Fees : Type 0 where
  pub nonce : ℕ
  pub priority_fee : ℕ
  pub max_fee : ℕ

-- The wallet and the endpoints. An endpoint may answer otherwise at a later attempt (the first
-- number) or round (the second); `none` is a rejection.
pub record Network : Type 0 where
  pub get_nonce : Result ℕ
  pub sign_transaction : Fees → Result Text
  pub broadcast_transaction : ℕ → Text → Text → Option Text
  pub get_transaction_receipt : ℕ → ℕ → Text → Option TransactionReceipt
  pub elapsed : ℕ → ℕ → ℕ

-- `results.find(hash => hash !== null)`
unfoldable pub find_hash : List (Option Text) → Option Text
find_hash [] = none
find_hash (none ∷ results) = find_hash results
find_hash (some hash ∷ results) = some hash

-- `hash || null`
abbrev pub hash_or_null : Option Text → Option Text
hash_or_null none = none
hash_or_null (some hash) = if truthy hash then some hash else none

unfoldable pub broadcast_to_all_rpcs : BroadcastOptions → Network → ℕ → Text → Option Text
unfolding find_hash
broadcast_to_all_rpcs o net attempt signed_tx =
    hash_or_null
      (find_hash (map (λ url. net.broadcast_transaction attempt url signed_tx) o.rpc_urls))

-- The variables of the loop over the attempts, and the requests signed, the latest first.
pub record Loop : Type 0 where
  pub attempt : ℕ
  pub current : Fees
  pub last_tx_hash : Option Text
  pub broadcast_succeeded_once : Bool
  pub requests : List Fees

abbrev pub rpc_used : BroadcastOptions → Option Text
rpc_used o = elim o.rpc_urls [ [] ↦ none | url ∷ urls ↦ some url ]

pub data Polled : Type 0 where
  receipt_found : TransactionReceipt → Polled
  not_mined : Polled
  out_of_fuel : Polled

-- The wait for a receipt: `round` counts the reads of the clock.
unfoldable pub poll : BroadcastOptions → Network → ℕ → ℕ → ℕ → Text → Polled
poll o net zero attempt round hash = out_of_fuel
poll o net (suc fuel) attempt round hash =
    elim (ltb (net.elapsed attempt round) o.replacement_delay_ms) [
      | false ↦ not_mined
      | true ↦ elim (net.get_transaction_receipt attempt round hash) [
        | some receipt ↦ receipt_found receipt
        | none ↦ poll o net fuel attempt (suc round) hash
      ]
    ]

pub data Attempted : Type 0 where
  returns : BroadcastResult → Attempted
  next_attempt : Loop → Attempted
  undecided : Attempted

abbrev pub bump_fee : BroadcastOptions → ℕ → ℕ
bump_fee o fee = fee * (100 + o.priority_fee_bump_percent) / 100

abbrev pub bump : BroadcastOptions → Fees → Fees
bump o fees = record fees {
  priority_fee = bump_fee o fees.priority_fee;
  max_fee = bump_fee o fees.max_fee;
}

abbrev pub failed_to_broadcast : Text
failed_to_broadcast = codes "Failed to broadcast to any RPC"

abbrev pub transaction_reverted : Text
transaction_reverted = codes "Transaction reverted"

abbrev pub failed_after_all : Text
failed_after_all = codes "Failed after all replacement attempts"

-- `if (lastTxHash)`: pending if there is one, else failed with the message.
abbrev pub pending_or_failed : BroadcastOptions → Text → Option Text → BroadcastResult
pending_or_failed o message none = failed message none
pending_or_failed o message (some hash) =
    if truthy hash then pending hash (rpc_used o) else failed message none

-- No endpoint took the transaction.
unfoldable pub not_broadcast : BroadcastOptions → Loop → Attempted
not_broadcast o s =
    if s.attempt == o.max_replacements
    then returns (
        if s.broadcast_succeeded_once
        then pending_or_failed o failed_to_broadcast s.last_tx_hash
        else failed failed_to_broadcast (hash_or_null s.last_tx_hash))
    else next_attempt (record s { attempt = s.attempt + 1 })

abbrev pub is_success : TransactionReceipt → Bool
is_success receipt = elim receipt.status [ none ↦ false | some n ↦ n == 1 ]

-- The wait is over.
unfoldable pub after_poll : BroadcastOptions → Loop → Text → Polled → Attempted
after_poll o s hash out_of_fuel = undecided
after_poll o s hash (receipt_found receipt) = returns (
    if is_success receipt
    then mined hash receipt (rpc_used o)
    else failed transaction_reverted (some hash))
after_poll o s hash not_mined =
    if s.attempt == o.max_replacements
    then returns (pending hash (rpc_used o))
    else next_attempt (record s { attempt = s.attempt + 1; current = bump o s.current })

-- The attempt from the broadcast on.
unfoldable pub after_broadcast : BroadcastOptions → Network → ℕ → Loop → Option Text → Attempted
unfolding not_broadcast after_poll poll
after_broadcast o net fuel s none = not_broadcast o s
after_broadcast o net fuel s (some hash) =
    after_poll o (record s { last_tx_hash = some hash; broadcast_succeeded_once = true }) hash
      (poll o net fuel s.attempt 0 hash)

-- One attempt, after the request is noted.
unfoldable pub try_attempt : BroadcastOptions → Network → ℕ → Loop → Attempted
unfolding after_broadcast broadcast_to_all_rpcs
try_attempt o net fuel s = elim (net.sign_transaction s.current) [
  | err message ↦ returns (failed message none)
  | ok signed_tx ↦ after_broadcast o net fuel s (broadcast_to_all_rpcs o net s.attempt signed_tx)
]

abbrev pub noted : Loop → Loop
noted s = record s { requests = s.current ∷ s.requests }

-- The result, with the requests that were signed; `none` if the fuel of a wait ran out.
abbrev pub Broadcasting : Type 0
Broadcasting = Option (BroadcastResult × List Fees)

-- The loop over the attempts; the number counts those left. The first clause is the code behind it.
unfoldable pub attempts : BroadcastOptions → Network → ℕ → ℕ → Loop → Broadcasting
unfolding try_attempt
attempts o net fuel zero s = some (pending_or_failed o failed_after_all s.last_tx_hash, s.requests)
attempts o net fuel (suc left) s = elim (try_attempt o net fuel (noted s)) [
  | returns result ↦ some (result, (noted s).requests)
  | next_attempt t ↦ attempts o net fuel left t
  | undecided ↦ none
]

abbrev pub gwei : ℕ
gwei = 10 ^ 9

-- The nonce of the request, or else the wallet's.
abbrev pub chosen_nonce : Network → TransactionRequest → Result ℕ
chosen_nonce net tx = elim tx.nonce [ none ↦ net.get_nonce | some n ↦ ok n ]

abbrev pub start : TransactionRequest → ℕ → Loop
start tx nonce = record {
  attempt = 0;
  current = record {
    nonce = nonce;
    priority_fee = or_number tx.max_priority_fee_per_gas gwei;
    max_fee = or_number tx.max_fee_per_gas (50 * gwei);
  };
  last_tx_hash = none;
  broadcast_succeeded_once = false;
  requests = [];
}

unfoldable pub broadcast_with_replacement :
    BroadcastOptions → Network → ℕ → TransactionRequest → Broadcasting
unfolding attempts
broadcast_with_replacement o net fuel tx = elim (chosen_nonce net tx) [
  | err message ↦ some (failed message none, [])
  | ok nonce ↦ attempts o net fuel (suc o.max_replacements) (start tx nonce)
]
