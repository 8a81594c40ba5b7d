-- ===== src/ExecutorClient.antt =====
-- backend-v2/src/execution/executorClient.ts: the checks before a liquidation is sent, and the two
-- ways of sending it. The chain, the wallet and the contract's encoder are parameters. What is
-- signed or sent is kept beside the result. Log lines are left out.
pub mod Sends
use liquid_bot.Prelude.{
  ℕ, zero, suc, ◌+◌, ◌*◌, ◌^◌, Bool, true, false, Option, none, some, List, [], ◌∷◌, ◌++◌, map,
  length, ltb, ◌==◌, if◌then◌else◌, or_number,
}
use liquid_bot.Prelude.Int.{ℤ, pos, negsuc, ltb_ℤ, scale_ℤ, to_string}
use liquid_bot.Prelude.Text.{Text, codes}
use liquid_bot.Prelude.Result.{Result, ok, err}
use liquid_bot.Safety.{flashloan_fee_bps, safety_buffer_bps, compute_min_required_out}
use liquid_bot.TxBroadcaster.{
  TransactionReceipt, BroadcastResult, BroadcastOptions, TransactionRequest, Fees, Network,
  Broadcasting, create, gwei, is_success, transaction_reverted, broadcast_with_replacement,
}

pub record LiquidationParams : Type 0 where
  pub user : Text
  pub collateral_asset : Text
  pub debt_asset : Text
  pub debt_to_cover : ℤ
  pub one_inch_calldata : Text
  pub min_out : ℤ
  pub payout : Text
  pub expected_collateral_out : Option ℤ

pub data SafetyCheckResult : Type 0 where
  safe : SafetyCheckResult
  unsafe : Text → SafetyCheckResult

pub data ExecutionResult : Type 0 where
  mined : Text → TransactionReceipt → ExecutionResult
  pending : Text → ExecutionResult
  failed : Text → Option Text → ExecutionResult

-- `x <= 0n`
abbrev pub is_not_positive : ℤ → Bool
is_not_positive x = ltb_ℤ x (pos 1)

abbrev pub is_given_not_positive : Option ℤ → Bool
is_given_not_positive none = false
is_given_not_positive (some x) = is_not_positive x

unfoldable pub repayment_reason : LiquidationParams → Text
unfolding to_string compute_min_required_out
repayment_reason p =
    let required = compute_min_required_out p.debt_to_cover flashloan_fee_bps safety_buffer_bps in
    codes "Repayment check failed: minOut ("
    ++ to_string p.min_out
    ++ codes ") < required ("
    ++ to_string required
    ++ codes "). Required = debtToCover ("
    ++ to_string p.debt_to_cover
    ++ codes ") + fee ("
    ++ to_string (scale_ℤ p.debt_to_cover flashloan_fee_bps 10000)
    ++ codes ") + buffer ("
    ++ to_string (scale_ℤ p.debt_to_cover safety_buffer_bps 10000)
    ++ codes ")"

unfoldable pub perform_safety_checks : LiquidationParams → SafetyCheckResult
unfolding compute_min_required_out
perform_safety_checks p =
    if is_not_positive p.debt_to_cover
    then unsafe (codes "debtToCover must be > 0")
    else if is_given_not_positive p.expected_collateral_out
    then unsafe (codes "expectedCollateralOut must be > 0")
    else if ltb_ℤ p.min_out
        (compute_min_required_out p.debt_to_cover flashloan_fee_bps safety_buffer_bps)
    then unsafe (repayment_reason p)
    else safe

pub record FeeData : Type 0 where
  pub max_priority_fee_per_gas : Option ℕ
  pub max_fee_per_gas : Option ℕ

-- The provider, the wallet and the contract.
pub record Chain : Type 0 where
  pub get_fee_data : Result FeeData
  pub populate_transaction : LiquidationParams → Result TransactionRequest
  pub send_transaction : TransactionRequest → Result Text
  pub wait : Text → Result (Option TransactionReceipt)

pub record ExecutorClient : Type 0 where
  pub executor_address : Text
  pub broadcaster : Option BroadcastOptions

-- The constructor: a broadcaster is made for more than one endpoint.
unfoldable pub create_client : Text → Option (List Text) → ExecutorClient
unfolding create
create_client address urls = record {
  executor_address = address;
  broadcaster = elim urls [
    | none ↦ none
    | some rpc_urls ↦
        if ltb 1 (length rpc_urls)
        then some (create rpc_urls (some 3000) (some 3) (some 20))
        else none
  ];
}

-- A request that the wallet signed for the broadcaster, or sent itself.
pub data Sending : Type 0 where
  signed : Fees → Sending
  sent : TransactionRequest → Sending

abbrev pub Attempt : Type 0
Attempt = Option (ExecutionResult × List Sending)

abbrev pub from_broadcast : BroadcastResult → ExecutionResult
from_broadcast (BroadcastResult.mined hash receipt rpc) = mined hash receipt
from_broadcast (BroadcastResult.pending hash rpc) = pending hash
from_broadcast (BroadcastResult.failed message hash) = failed message hash

abbrev pub broadcast_outcome : Broadcasting → Attempt
broadcast_outcome none = none
broadcast_outcome (some (result, requests)) = some (from_broadcast result, map signed requests)

abbrev pub confirmed : Option TransactionReceipt → ExecutionResult
confirmed none = failed transaction_reverted none
confirmed (some receipt) =
    if is_success receipt
    then mined receipt.hash receipt
    else failed transaction_reverted (some receipt.hash)

-- The path through one endpoint.
unfoldable pub send_single : Chain → TransactionRequest → ExecutionResult × List Sending
send_single chain tx = elim (chain.send_transaction tx) [
  | err message ↦ (failed message none, [])
  | ok hash ↦ elim (chain.wait hash) [
    | err message ↦ (failed message none, sent tx ∷ [])
    | ok receipt ↦ (confirmed receipt, sent tx ∷ [])
  ]
]

-- The gas settings of the request.
abbrev pub with_gas : FeeData → TransactionRequest → TransactionRequest
with_gas f tx = record tx {
  max_priority_fee_per_gas = some (or_number f.max_priority_fee_per_gas gwei);
  max_fee_per_gas = some (or_number f.max_fee_per_gas (50 * gwei));
}

-- The request with its gas settings.
abbrev pub build_request : Chain → LiquidationParams → Result TransactionRequest
build_request chain p = elim chain.get_fee_data [
  | err message ↦ err message
  | ok f ↦ elim (chain.populate_transaction p) [
    | err message ↦ err message
    | ok tx ↦ ok (with_gas f tx)
  ]
]

unfoldable pub send_request :
    ExecutorClient → Chain → Network → ℕ → Result TransactionRequest → Attempt
unfolding broadcast_with_replacement send_single
send_request c chain net fuel (err message) = some (failed message none, [])
send_request c chain net fuel (ok tx) = elim c.broadcaster [
  | none ↦ some (send_single chain tx)
  | some o ↦ broadcast_outcome (broadcast_with_replacement o net fuel tx)
]

abbrev pub safety_check_failed : Text
safety_check_failed = codes "Safety check failed: "

unfoldable pub attempt_liquidation :
    ExecutorClient → Chain → Network → ℕ → LiquidationParams → Attempt
unfolding perform_safety_checks send_request
attempt_liquidation c chain net fuel p = elim (perform_safety_checks p) [
  | unsafe reason ↦ some (failed (safety_check_failed ++ reason) none, [])
  | safe ↦ send_request c chain net fuel (build_request chain p)
]
