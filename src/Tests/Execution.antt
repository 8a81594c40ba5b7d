-- ===== src/Tests/Execution.antt =====
-- The broadcaster and the executor on small inputs.
use liquid_bot.Prelude.{◌*◌, ◌≡◌, refl, none, some, [], ◌∷◌, arith, ◌==◌, if◌then◌else◌}
use liquid_bot.Prelude.Int.{pos}
use liquid_bot.Prelude.Text.{codes}
use liquid_bot.Prelude.Result.{ok, err}
use liquid_bot.TxBroadcaster.{
  BroadcastResult, BroadcastOptions, TransactionRequest, Network, create, start,
  broadcast_with_replacement,
}
use liquid_bot.TxBroadcaster.Fate.{Paced}
use liquid_bot.TxBroadcaster.Verdict.{Concludes, broadcast_with_replacement-Concludes}
use liquid_bot.TxBroadcaster.Requests.{SignsInOrder, broadcast_with_replacement-SignsInOrder}
use liquid_bot.ExecutorClient.{
  LiquidationParams, Chain, ExecutorClient, create_client, attempt_liquidation,
}
use liquid_bot.ExecutorClient.Sends.{IsSound, attempt_liquidation-IsSound}

abbrev options : BroadcastOptions
options = create (codes "a" ∷ codes "b" ∷ []) (some 1000) (some 1) none

-- The first endpoint takes nothing. The receipt is there in the second round of the second attempt.
abbrev network : Network
network = record {
  get_nonce = ok 7;
  sign_transaction = λ f. ok (f.priority_fee ∷ []);
  broadcast_transaction = λ attempt url tx. elim url [
    | [] ↦ none
    | c ∷ cs ↦ if c == b'a' then none else some (b'h' ∷ tx)
  ];
  get_transaction_receipt = λ attempt round hash.
      if (attempt == 1)
      then (if round == 1 then some (record { status = some 1; hash = hash }) else none)
      else none;
  elapsed = λ attempt round. round * 500;
}

abbrev request : TransactionRequest
request = record { nonce = none; max_priority_fee_per_gas = some 100; max_fee_per_gas = some 500 }

replaced_and_mined :
    broadcast_with_replacement options network 4 request
    ≡ some (
      BroadcastResult.mined
          (b'h' ∷ 120 ∷ [])
          (record { status = some 1; hash = b'h' ∷ 120 ∷ [] })
          (some (codes "a")),
      record { nonce = 7; priority_fee = 120; max_fee = 600 }
          ∷ record { nonce = 7; priority_fee = 100; max_fee = 500 }
          ∷ [],
    )
unfolding broadcast_with_replacement create
replaced_and_mined = refl

network-Paced : Paced network
network-Paced a k = omega arith

broadcast_with_replacement-Concludes_example :
    Concludes options network
      (start request 7).current
      (broadcast_with_replacement options network 4 request)
unfolding create
broadcast_with_replacement-Concludes_example =
    broadcast_with_replacement-Concludes options network 4 7 request network-Paced (omega arith)
      refl

broadcast_with_replacement-SignsInOrder_example :
    SignsInOrder options 7 (broadcast_with_replacement options network 4 request)
unfolding create
broadcast_with_replacement-SignsInOrder_example =
    broadcast_with_replacement-SignsInOrder options network 4 7 request network-Paced (omega arith)
      refl (omega arith)

abbrev params : LiquidationParams
params = record {
  user = codes "0xu";
  collateral_asset = codes "0xc";
  debt_asset = codes "0xd";
  debt_to_cover = pos 10000;
  one_inch_calldata = codes "0x";
  min_out = pos 10059;
  payout = codes "0xp";
  expected_collateral_out = some (pos 3);
}

abbrev chain : Chain
chain = record {
  get_fee_data = ok (record { max_priority_fee_per_gas = some 10; max_fee_per_gas = none });
  populate_transaction = λ p. ok request;
  send_transaction = λ tx. err (codes "down");
  wait = λ hash. ok none;
}

abbrev client : ExecutorClient
client = create_client (codes "0xe") (some (codes "a" ∷ codes "b" ∷ []))

attempt_liquidation-IsSound_example :
    IsSound params (attempt_liquidation client chain network 8 params)
unfolding create_client
attempt_liquidation-IsSound_example =
    attempt_liquidation-IsSound client chain network 8 params network-Paced (omega arith)
