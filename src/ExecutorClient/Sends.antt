-- ===== src/ExecutorClient/Sends.antt =====
-- When a liquidation is sent, and what its result says.
use liquid_bot.Prelude.{
  ℕ, ◌≤◌, ◌≡◌, ◌↔◌, ◌⊎◌, refl, true, false, Option, none, some, [], arith, if◌then◌else◌,
  Bool-cases, Option-cases, inl, inr,
}
use liquid_bot.Prelude.Int.{ℤ, pos, ◌≤ℤ◌, ltb_ℤ}
use liquid_bot.Prelude.Text.{Text}
use liquid_bot.Prelude.Result.{Result-cases}
use liquid_bot.Safety.{flashloan_fee_bps, safety_buffer_bps, compute_min_required_out}
use liquid_bot.TxBroadcaster.{
  TransactionReceipt, BroadcastResult, BroadcastOptions, TransactionRequest, Fees, Network,
  Broadcasting, is_success, broadcast_with_replacement, chosen_nonce, start,
}
use liquid_bot.TxBroadcaster.Fate.{
  Paced, rounds, Explains, is_mined, still_pending, is_reverted, not_signed, never_broadcast,
}
use liquid_bot.TxBroadcaster.Verdict.{
  is_success_iff, Concludes, broadcast_with_replacement-Concludes,
}
use liquid_bot.ExecutorClient.{
  is_not_positive, is_given_not_positive, from_broadcast, LiquidationParams, SafetyCheckResult,
  safe, unsafe, ExecutionResult, mined, pending, failed, perform_safety_checks, Chain,
  ExecutorClient, Attempt, broadcast_outcome, confirmed, send_single, build_request, send_request,
  attempt_liquidation,
}

-- A liquidation that pays: a positive debt, a positive collateral where one is given, and a swap
-- that gives the debt, the fee of the flash loan and the buffer.
abbrev pub IsGivenPositive : Option ℤ → Type 0
IsGivenPositive none = Unit {0}
IsGivenPositive (some x) = pos 1 ≤ℤ x

abbrev pub Pays : LiquidationParams → Type 0
Pays p =
    (pos 1 ≤ℤ p.debt_to_cover)
    × IsGivenPositive p.expected_collateral_out
    × (compute_min_required_out p.debt_to_cover flashloan_fee_bps safety_buffer_bps ≤ℤ p.min_out)

not_given_positive : (x : Option ℤ) → is_given_not_positive x ≡ true → IsGivenPositive x → ⊥
not_given_positive none y h = cc
not_given_positive (some x) y h = ground arith

given_positive : (x : Option ℤ) → is_given_not_positive x ≡ false → IsGivenPositive x
given_positive none n = tt
given_positive (some x) n = ground arith

SafetyCheck-cases : (r : SafetyCheckResult) → (r ≡ safe) ⊎ ((reason : Text) × (r ≡ unsafe reason))
SafetyCheck-cases safe = inl refl
SafetyCheck-cases (unsafe reason) = inr (reason, refl)

abbrev Judges : LiquidationParams → SafetyCheckResult → Type 0
Judges p safe = Pays p
Judges p (unsafe reason) = ¬ Pays p

perform_safety_checks-Judges : (p : LiquidationParams) → Judges p (perform_safety_checks p)
unfolding perform_safety_checks
perform_safety_checks-Judges p =
    let required = compute_min_required_out p.debt_to_cover flashloan_fee_bps safety_buffer_bps in
    elim (Bool-cases (is_not_positive p.debt_to_cover)) [
      | inl y ↦ rw (y, if◌then◌else◌) (λ pays. ground (arith, pays.0))
      | inr debt ↦
          rw (debt, if◌then◌else◌)
            (elim (Bool-cases (is_given_not_positive p.expected_collateral_out)) [
              | inl y ↦
                  rw (y, if◌then◌else◌)
                    (λ pays. not_given_positive p.expected_collateral_out y pays.1)
              | inr given ↦
                  rw (given, if◌then◌else◌)
                    (elim (Bool-cases (ltb_ℤ p.min_out required)) [
                      | inl y ↦ rw (y, if◌then◌else◌) (λ pays. ground (arith, pays.2))
                      | inr enough ↦
                          rw (enough, if◌then◌else◌)
                            (
                              ground arith,
                              given_positive p.expected_collateral_out given,
                              ground arith,
                            )
                    ])
            ])
    ]

-- The checks pass exactly for a liquidation that pays.
pub perform_safety_checks_iff : (p : LiquidationParams) → (perform_safety_checks p ≡ safe) ↔ Pays p
perform_safety_checks_iff p = from_judges (perform_safety_checks p) (perform_safety_checks-Judges p)
  where
    from_judges : (r : SafetyCheckResult) → Judges p r → (r ≡ safe) ↔ Pays p
    from_judges safe h = (λ _. h, λ _. refl)
    from_judges (unsafe reason) h = (λ e. cc, λ pays. absurd (h pays))

-- Nothing was sent unless it pays, and a success is a receipt of success.
abbrev IsConfirmed : LiquidationParams → ExecutionResult → Type 0
IsConfirmed p (mined hash receipt) = Pays p × (receipt.status ≡ some 1)
IsConfirmed p (pending hash) = Pays p
IsConfirmed p (failed message hash) = Unit {0}

abbrev pub IsSound : LiquidationParams → Attempt → Type 0
IsSound p none = ⊥
IsSound p (some (result, log)) = ((log ≡ []) ⊎ Pays p) × IsConfirmed p result

module _ (p : LiquidationParams) (pays : Pays p) where
  confirmed-IsConfirmed : (receipt : Option TransactionReceipt) → IsConfirmed p (confirmed receipt)
  confirmed-IsConfirmed none = tt
  confirmed-IsConfirmed (some receipt) = elim (Bool-cases (is_success receipt)) [
    | inl y ↦ rw (y, if◌then◌else◌) (pays, (is_success_iff receipt).0 y)
    | inr n ↦ rw (n, if◌then◌else◌) tt
  ]

  send_single-IsSound :
      (chain : Chain) (tx : TransactionRequest) → IsSound p (some (send_single chain tx))
  unfolding send_single
  send_single-IsSound chain tx = elim (Result-cases (chain.send_transaction tx)) [
    | inr (message, e) ↦ rw (e, send_single) (inl refl, tt)
    | inl (hash, e) ↦
        rw (e, send_single)
          (elim (Result-cases (chain.wait hash)) [
            | inr (message, f) ↦ rw f (inr pays, tt)
            | inl (receipt, f) ↦ rw f (inr pays, confirmed-IsConfirmed receipt)
          ])
  ]

  Explains-IsConfirmed :
      (o : BroadcastOptions) (net : Network) (first : Fees) (result : BroadcastResult)
      → Explains o net first result
      → IsConfirmed p (from_broadcast result)
  Explains-IsConfirmed o net first result (is_mined taken read success) = (pays, success)
  Explains-IsConfirmed o net first result (still_pending taken) = pays
  Explains-IsConfirmed o net first result (is_reverted taken read fails) = tt
  Explains-IsConfirmed o net first result (not_signed e) = tt
  Explains-IsConfirmed o net first result (never_broadcast e refused) = tt

  Concludes-IsSound :
      (o : BroadcastOptions) (net : Network) (first : Fees) (outcome : Broadcasting)
      → Concludes o net first outcome
      → IsSound p (broadcast_outcome outcome)
  Concludes-IsSound o net first none h = h
  Concludes-IsSound o net first (some (result, requests)) h =
      (inr pays, Explains-IsConfirmed o net first result h)

  broadcast-IsSound :
      (o : BroadcastOptions) (net : Network) (fuel : ℕ) (tx : TransactionRequest)
      → Paced net
      → rounds o ≤ fuel
      → IsSound p (broadcast_outcome (broadcast_with_replacement o net fuel tx))
  unfolding broadcast_with_replacement
  broadcast-IsSound o net fuel tx paced enough = elim (Result-cases (chosen_nonce net tx)) [
    | inr (message, e) ↦ rw (e, broadcast_with_replacement) (inl refl, tt)
    | inl (nonce, e) ↦
        Concludes-IsSound o net (start tx nonce).current (broadcast_with_replacement o net fuel tx)
          (broadcast_with_replacement-Concludes o net fuel nonce tx paced enough e)
  ]

-- The fuel serves the broadcaster, if there is one.
abbrev pub Serves : ℕ → Option BroadcastOptions → Type 0
Serves fuel none = Unit {0}
Serves fuel (some o) = rounds o ≤ fuel

-- With rounds of a wait of half a second or more and fuel for them, the call returns a result.
-- Nothing is signed or sent unless the debt is positive, the expected collateral is positive where
-- it is given, and the swap gives the debt, the fee and the buffer. "mined" comes with a receipt of
-- success for such a liquidation, and "pending" is returned only for such a one.
pub attempt_liquidation-IsSound :
    (c : ExecutorClient) (chain : Chain) (net : Network) (fuel : ℕ) (p : LiquidationParams)
    → Paced net
    → Serves fuel c.broadcaster
    → IsSound p (attempt_liquidation c chain net fuel p)
unfolding attempt_liquidation send_request
attempt_liquidation-IsSound c chain net fuel p paced serves =
    elim (SafetyCheck-cases (perform_safety_checks p)) [
      | inr (reason, e) ↦ rw (e, attempt_liquidation) (inl refl, tt)
      | inl e ↦
          let pays = (perform_safety_checks_iff p).0 e in
          rw (e, attempt_liquidation)
            (elim (Result-cases (build_request chain p)) [
              | inr (message, f) ↦ rw (f, send_request) (inl refl, tt)
              | inl (tx, f) ↦
                  rw (f, send_request)
                    (elim (Option-cases c.broadcaster) [
                      | inl n ↦ rw n (send_single-IsSound p pays chain tx)
                      | inr (o, y) ↦
                          let enough : rounds o ≤ fuel = rw y at serves in
                          rw y (broadcast-IsSound p pays o net fuel tx paced enough)
                    ])
            ])
    ]
