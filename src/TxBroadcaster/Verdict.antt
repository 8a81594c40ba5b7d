-- ===== src/TxBroadcaster/Verdict.antt =====
-- One attempt of the broadcaster, and the whole call.
use liquid_bot.Prelude.{
  ℕ, zero, suc, ◌+◌, ◌≤◌, ◌<◌, ◌≡◌, ◌≢◌, ◌↔◌, ◌⊎◌, refl, sym, ap, ◌∙◌, true, false, none, some,
  arith, ◌==◌, ==_iff, if◌then◌else◌, Bool-cases, Option-cases, inl, inr,
}
use liquid_bot.Prelude.Text.{Text, truthy}
use liquid_bot.Prelude.Result.{ok, Result-cases}
use liquid_bot.TxBroadcaster.{
  TransactionReceipt, BroadcastResult, BroadcastOptions, TransactionRequest, Fees, Network,
  broadcast_to_all_rpcs, Loop, Polled, receipt_found, not_mined, out_of_fuel, poll, Attempted,
  returns, next_attempt, undecided, not_broadcast, is_success, after_poll, after_broadcast,
  try_attempt, noted, Broadcasting, attempts, chosen_nonce, start, broadcast_with_replacement,
}
use liquid_bot.TxBroadcaster.Fate.{
  Paced, rounds, IsAccepted, Explains, is_mined, still_pending, is_reverted, not_signed,
  never_broadcast, IsUnderway, is_fresh, is_sent, IsPolled, poll-IsPolled,
  broadcast_to_all_rpcs-IsAccepted,
}

pub is_success_iff :
    (receipt : TransactionReceipt) → (is_success receipt ≡ true) ↔ (receipt.status ≡ some 1)
is_success_iff receipt =
    elim receipt.status
      as (λ o. ((elim o [ none ↦ false | some n ↦ n == 1 ]) ≡ true) ↔ (o ≡ some 1)) [
        | none ↦ (λ h. cc, λ h. cc)
        | some n ↦ ground arith
      ]

module _ (o : BroadcastOptions) (net : Network) (first : Fees) where
  -- What an attempt may end with.
  abbrev pub IsStep : ℕ → Attempted → Type 0
  IsStep attempt (returns result) = Explains o net first result
  IsStep attempt (next_attempt t) =
      IsUnderway o net first t × (t.attempt ≡ suc attempt) × (attempt ≢ o.max_replacements)
  IsStep attempt undecided = ⊥

  no_broadcast_yet :
      (s : Loop) (signed_tx : Text)
      → net.sign_transaction first ≡ ok signed_tx
      → broadcast_to_all_rpcs o net s.attempt signed_tx ≡ none
      → ((a : ℕ) (tx : Text)
          → a < s.attempt
          → net.sign_transaction first ≡ ok tx
          → broadcast_to_all_rpcs o net a tx ≡ none)
      → (a : ℕ) (tx : Text) → a < s.attempt + 1
      → net.sign_transaction first ≡ ok tx
      → broadcast_to_all_rpcs o net a tx ≡ none
  no_broadcast_yet s signed_tx signed refused earlier a tx below signed_too =
      elim (Bool-cases (a == s.attempt)) [
        | inl e ↦
            let same_tx : tx ≡ signed_tx = cc in
            let same_a : a ≡ s.attempt = (==_iff a s.attempt).0 e in
            ap (λ n. broadcast_to_all_rpcs o net n tx) same_a
            ∙ ap (broadcast_to_all_rpcs o net s.attempt) same_tx
            ∙ refused
        | inr e ↦ earlier a tx (ground arith) signed_too
      ]

  not_broadcast-IsStep :
      (s : Loop) (signed_tx : Text)
      → net.sign_transaction s.current ≡ ok signed_tx
      → broadcast_to_all_rpcs o net s.attempt signed_tx ≡ none
      → IsUnderway o net first s
      → IsStep s.attempt (not_broadcast o s)
  unfolding not_broadcast
  not_broadcast-IsStep s signed_tx signed refused (is_fresh unsent never same earlier) =
      let signed' : net.sign_transaction first ≡ ok signed_tx =
        ap (λ f. net.sign_transaction f) (sym same) ∙ signed in
      let still = no_broadcast_yet s signed_tx signed' refused earlier in
      elim (Bool-cases (s.attempt == o.max_replacements)) [
        | inl e ↦
            rw (e, never, unsent, if◌then◌else◌)
              (never_broadcast signed' (λ a h. still a signed_tx (ground arith) signed'))
        | inr e ↦
            rw (e, if◌then◌else◌) (is_fresh unsent never same still, omega arith, ground arith)
      ]
  not_broadcast-IsStep s signed_tx signed refused (is_sent hash sent full once taken) =
      elim (Bool-cases (s.attempt == o.max_replacements)) [
        | inl e ↦ rw (e, once, sent, if◌then◌else◌, full, if◌then◌else◌) (still_pending taken)
        | inr e ↦
            rw (e, if◌then◌else◌) (is_sent hash sent full once taken, omega arith, ground arith)
      ]

  after_poll-IsStep :
      (s : Loop) (hash : Text) (polled : Polled)
      → s.last_tx_hash ≡ some hash
      → s.broadcast_succeeded_once ≡ true
      → truthy hash ≡ true
      → IsAccepted o net hash
      → IsPolled o net hash polled
      → IsStep s.attempt (after_poll o s hash polled)
  unfolding after_poll
  after_poll-IsStep s hash out_of_fuel sent once full taken h = h
  after_poll-IsStep s hash (receipt_found receipt) sent once full taken h =
      elim (Bool-cases (is_success receipt)) [
        | inl y ↦ rw (y, if◌then◌else◌) (is_mined taken h ((is_success_iff receipt).0 y))
        | inr n ↦
            rw (n, if◌then◌else◌)
              (is_reverted taken h
                (λ e. let y : is_success receipt ≡ true = (is_success_iff receipt).1 e in cc))
      ]
  after_poll-IsStep s hash not_mined sent once full taken h =
      elim (Bool-cases (s.attempt == o.max_replacements)) [
        | inl e ↦ rw (e, if◌then◌else◌) (still_pending taken)
        | inr e ↦
            rw (e, if◌then◌else◌) (is_sent hash sent full once taken, omega arith, ground arith)
      ]

  try_attempt-IsStep :
      Paced net
      → (fuel : ℕ) (s : Loop) → rounds o ≤ fuel
      → IsUnderway o net first s
      → IsStep s.attempt (try_attempt o net fuel s)
  unfolding try_attempt after_broadcast
  try_attempt-IsStep paced zero s few h = absurd (omega arith)
  try_attempt-IsStep paced (suc fuel) s few h =
      elim (Result-cases (net.sign_transaction s.current)) [
        | inr (message, e) ↦ rw (e, try_attempt) (not_signed e)
        | inl (signed_tx, e) ↦
            rw (e, try_attempt)
              (elim (Option-cases (broadcast_to_all_rpcs o net s.attempt signed_tx)) [
                | inl n ↦ rw (n, after_broadcast) (not_broadcast-IsStep s signed_tx e n h)
                | inr (hash, y) ↦
                    let (full, taken) =
                      broadcast_to_all_rpcs-IsAccepted o net s.attempt signed_tx hash y in
                    rw (y, after_broadcast)
                      (after_poll-IsStep
                        (record s { last_tx_hash = some hash; broadcast_succeeded_once = true })
                        hash (poll o net (suc fuel) s.attempt 0 hash) refl refl full taken
                        (poll-IsPolled o net paced fuel s.attempt 0 hash (omega arith)))
              ])
      ]

pub Attempted-cases :
    (r : Attempted)
    → ((result : BroadcastResult) × (r ≡ returns result))
      ⊎ (((t : Loop) × (r ≡ next_attempt t)) ⊎ (r ≡ undecided))
Attempted-cases (returns result) = inl (result, refl)
Attempted-cases (next_attempt t) = inr (inl (t, refl))
Attempted-cases undecided = inr (inr refl)

module _ (o : BroadcastOptions) (net : Network) where
  -- There is a result, and it is explained.
  abbrev pub Concludes : Fees → Broadcasting → Type 0
  Concludes first none = ⊥
  Concludes first (some (result, requests)) = Explains o net first result

  module _ (first : Fees) (paced : Paced net) (fuel : ℕ) (enough : rounds o ≤ fuel) where
    noted-IsUnderway : (s : Loop) → IsUnderway o net first s → IsUnderway o net first (noted s)
    noted-IsUnderway s (is_fresh unsent never same earlier) = is_fresh unsent never same earlier
    noted-IsUnderway s (is_sent hash sent full once taken) = is_sent hash sent full once taken

    -- The attempts left reach the last one, so that the code behind the loop is never run.
    attempts-Concludes :
        (left : ℕ) (s : Loop)
        → s.attempt + left ≡ o.max_replacements
        → IsUnderway o net first s
        → Concludes first (attempts o net fuel (suc left) s)
    unfolding attempts
    attempts-Concludes zero s last h =
        let step =
          try_attempt-IsStep o net first paced fuel (noted s) enough (noted-IsUnderway s h) in
        elim (Attempted-cases (try_attempt o net fuel (noted s))) [
          | inl (result, e) ↦ rw (e, attempts) (rw e at step)
          | inr (inr e) ↦ absurd (rw e at step)
          | inr (inl (t, e)) ↦
              let step' : IsStep o net first s.attempt (next_attempt t) = rw e at step in
              absurd (step'.2 (omega (arith, last)))
        ]
    attempts-Concludes (suc left) s last h =
        let step =
          try_attempt-IsStep o net first paced fuel (noted s) enough (noted-IsUnderway s h) in
        elim (Attempted-cases (try_attempt o net fuel (noted s))) [
          | inl (result, e) ↦ rw (e, attempts) (rw e at step)
          | inr (inr e) ↦ absurd (rw e at step)
          | inr (inl (t, e)) ↦
              let step' : IsStep o net first s.attempt (next_attempt t) = rw e at step in
              rw (e, attempts) (attempts-Concludes left t (omega (arith, last, step'.1)) step'.0)
        ]

-- With rounds of half a second or more, fuel for all rounds of a wait, and a nonce, the call returns
-- a result. "mined" comes with a receipt of success for a hash that an endpoint gave, "pending" with
-- such a hash, "reverted" with a receipt without success. The call reports that no endpoint took the
-- transaction only if none did at any attempt. Any other failure is an error of the wallet.
pub broadcast_with_replacement-Concludes :
    (o : BroadcastOptions) (net : Network) (fuel nonce : ℕ) (tx : TransactionRequest)
    → Paced net
    → rounds o ≤ fuel
    → chosen_nonce net tx ≡ ok nonce
    → Concludes o net (start tx nonce).current (broadcast_with_replacement o net fuel tx)
unfolding broadcast_with_replacement
broadcast_with_replacement-Concludes o net fuel nonce tx paced enough chosen =
    rw (chosen, broadcast_with_replacement)
      (attempts-Concludes o net (start tx nonce).current paced fuel enough o.max_replacements
        (start tx nonce) (omega arith)
        (is_fresh refl refl refl (λ a signed_tx h e. absurd (omega arith))))
