-- ===== src/Safety.antt =====
-- backend-v2/src/execution/safety.ts: what the swap of a liquidation must give. A default argument
-- is an argument.
use liquid_bot.Prelude.{ℕ, ◌↔◌}
use liquid_bot.Prelude.Int.{ℤ, pos, ◌+ℤ◌, ◌-ℤ◌, ◌≤ℤ◌, scale_ℤ, int_laws}

abbrev pub flashloan_fee_bps : ℕ
flashloan_fee_bps = 9

abbrev pub safety_buffer_bps : ℕ
safety_buffer_bps = 50

unfoldable pub compute_min_required_out : ℤ → ℕ → ℕ → ℤ
compute_min_required_out debt_to_cover fee_bps buffer_bps =
    let flashloan_fee = scale_ℤ debt_to_cover fee_bps 10000 in
    let safety_buffer = scale_ℤ debt_to_cover buffer_bps 10000 in
    debt_to_cover +ℤ flashloan_fee +ℤ safety_buffer

unfoldable pub compute_net_debt_token : ℤ → ℤ → ℕ → ℕ → ℤ
compute_net_debt_token min_out debt_to_cover fee_bps buffer_bps =
    let flashloan_fee = scale_ℤ debt_to_cover fee_bps 10000 in
    let safety_buffer = scale_ℤ debt_to_cover buffer_bps 10000 in
    min_out -ℤ debt_to_cover -ℤ flashloan_fee -ℤ safety_buffer

-- The net profit in the debt token is at least 0 exactly when the swap gives the least required,
-- for any amounts, negative ones included, and any fees.
pub compute_net_debt_token_iff :
    (min_out debt_to_cover : ℤ) (fee_bps buffer_bps : ℕ)
    → (pos 0 ≤ℤ compute_net_debt_token min_out debt_to_cover fee_bps buffer_bps)
      ↔ (compute_min_required_out debt_to_cover fee_bps buffer_bps ≤ℤ min_out)
unfolding compute_net_debt_token compute_min_required_out
compute_net_debt_token_iff min_out debt_to_cover fee_bps buffer_bps =
    (λ h. omega int_laws, λ h. omega int_laws)
