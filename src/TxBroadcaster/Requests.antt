-- ===== src/TxBroadcaster/Requests.antt =====
-- The requests that the wallet signs for one broadcast.
use native.Mathlib.Nat.{mul-le-mul_right}
use liquid_bot.Prelude.{
  ℕ, zero, suc, ◌+◌, ◌≤◌, ◌≡◌, ◌≢◌, refl, true, none, some, List, [], ◌∷◌, arith, length, ◌==◌,
  Bool-cases, Option-cases, inl, inr,
}
use liquid_bot.Prelude.Text.{Text}
use liquid_bot.Prelude.Result.{ok, Result-cases}
use liquid_bot.TxBroadcaster.{
  BroadcastOptions, TransactionRequest, Fees, Network, broadcast_to_all_rpcs, Loop, Polled,
  receipt_found, not_mined, out_of_fuel, poll, Attempted, returns, next_attempt, undecided,
  not_broadcast, after_poll, after_broadcast, try_attempt, noted, Broadcasting, attempts,
  chosen_nonce, start, broadcast_with_replacement, bump_fee, bump,
}
use liquid_bot.TxBroadcaster.Fate.{Paced, rounds}
use liquid_bot.TxBroadcaster.Verdict.{
  Attempted-cases, Concludes, broadcast_with_replacement-Concludes,
}

-- Each request, the latest first, has the nonce and fees at least those of the one before it; the
-- priority fee does not exceed the whole fee.
abbrev pub Rises : ℕ → Fees → List Fees → Type 0
Rises nonce latest [] = (latest.nonce ≡ nonce) × (latest.priority_fee ≤ latest.max_fee)
Rises nonce latest (f ∷ fs) =
    (latest.nonce ≡ nonce)
    × (latest.priority_fee ≤ latest.max_fee)
    × (f.priority_fee ≤ latest.priority_fee)
    × (f.max_fee ≤ latest.max_fee)
    × Rises nonce f fs

abbrev pub AllRise : ℕ → List Fees → Type 0
AllRise nonce [] = Unit {0}
AllRise nonce (f ∷ fs) = Rises nonce f fs

-- A fee that is raised by some percent, rounded down, does not fall.
le-bump_fee : (o : BroadcastOptions) (fee : ℕ) → fee ≤ bump_fee o fee
le-bump_fee o fee =
    let h : 100 ≤ 100 + o.priority_fee_bump_percent = omega arith in
    omega (arith, mul-le-mul_right fee h)

bump_fee_mono : (o : BroadcastOptions) (a b : ℕ) → a ≤ b → bump_fee o a ≤ bump_fee o b
bump_fee_mono o a b h = omega (arith, mul-le-mul_right (100 + o.priority_fee_bump_percent) h)

Rises-bump :
    (o : BroadcastOptions) (nonce : ℕ) (f : Fees) (fs : List Fees)
    → Rises nonce f fs
    → Rises nonce (bump o f) (f ∷ fs)
Rises-bump o nonce f [] h = (
  h.0,
  bump_fee_mono o f.priority_fee f.max_fee h.1,
  le-bump_fee o f.priority_fee,
  le-bump_fee o f.max_fee,
  h,
)
Rises-bump o nonce f (g ∷ fs) h = (
  h.0,
  bump_fee_mono o f.priority_fee f.max_fee h.1,
  le-bump_fee o f.priority_fee,
  le-bump_fee o f.max_fee,
  h,
)

Rises-again : (nonce : ℕ) (f : Fees) (fs : List Fees) → Rises nonce f fs → Rises nonce f (f ∷ fs)
Rises-again nonce f [] h = (h.0, h.1, omega arith, omega arith, h)
Rises-again nonce f (g ∷ fs) h = (h.0, h.1, omega arith, omega arith, h)

-- The request that an attempt signs, and those before it.
abbrev IsInOrder : ℕ → Loop → Type 0
IsInOrder nonce s = Rises nonce s.current s.requests × (length s.requests ≡ s.attempt)

module _ (o : BroadcastOptions) (net : Network) (fuel nonce : ℕ) where
  -- What an attempt may end with: there is a next one, up to the last.
  abbrev NextInOrder : ℕ → Attempted → Type 0
  NextInOrder attempt (returns result) = Unit {0}
  NextInOrder attempt (next_attempt t) =
      IsInOrder nonce t × (t.attempt ≡ suc attempt) × (attempt ≢ o.max_replacements)
  NextInOrder attempt undecided = Unit {0}

  not_broadcast-InOrder :
      (s : Loop) → IsInOrder nonce s → NextInOrder s.attempt (not_broadcast o (noted s))
  unfolding not_broadcast
  not_broadcast-InOrder s h = elim (Bool-cases (s.attempt == o.max_replacements)) [
    | inl e ↦ rw e tt
    | inr e ↦ rw e (
      (Rises-again nonce s.current s.requests h.0, omega (arith, h.1)),
      omega arith,
      ground arith,
    )
  ]

  after_poll-InOrder :
      (s : Loop) (hash : Text) (polled : Polled)
      → IsInOrder nonce s
      → NextInOrder s.attempt (
          after_poll o
            (record (noted s) { last_tx_hash = some hash; broadcast_succeeded_once = true })
            hash
            polled)
  unfolding after_poll
  after_poll-InOrder s hash out_of_fuel h = tt
  after_poll-InOrder s hash (receipt_found receipt) h = tt
  after_poll-InOrder s hash not_mined h = elim (Bool-cases (s.attempt == o.max_replacements)) [
    | inl e ↦ rw e tt
    | inr e ↦ rw e (
      (Rises-bump o nonce s.current s.requests h.0, omega (arith, h.1)),
      omega arith,
      ground arith,
    )
  ]

  try_attempt-InOrder :
      (s : Loop) → IsInOrder nonce s → NextInOrder s.attempt (try_attempt o net fuel (noted s))
  unfolding try_attempt after_broadcast
  try_attempt-InOrder s h = elim (Result-cases (net.sign_transaction s.current)) [
    | inr (message, e) ↦ rw (e, try_attempt) tt
    | inl (signed_tx, e) ↦
        rw (e, try_attempt)
          (elim (Option-cases (broadcast_to_all_rpcs o net s.attempt signed_tx)) [
            | inl n ↦ rw (n, after_broadcast) (not_broadcast-InOrder s h)
            | inr (hash, y) ↦
                rw (y, after_broadcast)
                  (after_poll-InOrder s hash (poll o net fuel s.attempt 0 hash) h)
          ])
  ]

  abbrev AreInOrder : Broadcasting → Type 0
  AreInOrder none = Unit {0}
  AreInOrder (some (result, requests)) =
      AllRise nonce requests × (length requests ≤ suc o.max_replacements)

  attempts-AreInOrder :
      (left : ℕ) (s : Loop)
      → s.attempt + left ≡ o.max_replacements
      → IsInOrder nonce s
      → AreInOrder (attempts o net fuel (suc left) s)
  unfolding attempts
  attempts-AreInOrder zero s last h = elim (Attempted-cases (try_attempt o net fuel (noted s))) [
    | inl (result, e) ↦ rw (e, attempts) (h.0, omega (arith, h.1, last))
    | inr (inr e) ↦ rw (e, attempts) tt
    | inr (inl (t, e)) ↦
        let step : NextInOrder s.attempt (next_attempt t) = rw e at (try_attempt-InOrder s h) in
        absurd (step.2 (omega (arith, last)))
  ]
  attempts-AreInOrder (suc left) s last h =
      elim (Attempted-cases (try_attempt o net fuel (noted s))) [
        | inl (result, e) ↦ rw (e, attempts) (h.0, omega (arith, h.1, last))
        | inr (inr e) ↦ rw (e, attempts) tt
        | inr (inl (t, e)) ↦
            let step : NextInOrder s.attempt (next_attempt t) = rw e at (try_attempt-InOrder s h) in
            rw (e, attempts) (attempts-AreInOrder left t (omega (arith, last, step.1)) step.0)
      ]

-- The requests of an outcome that there is.
abbrev pub SignsInOrder : BroadcastOptions → ℕ → Broadcasting → Type 0
SignsInOrder o nonce none = ⊥
SignsInOrder o nonce (some (result, requests)) =
    AllRise nonce requests × (length requests ≤ suc o.max_replacements)

both :
    (o : BroadcastOptions) (net : Network) (fuel nonce : ℕ) (first : Fees) (outcome : Broadcasting)
    → Concludes o net first outcome
    → AreInOrder o net fuel nonce outcome
    → SignsInOrder o nonce outcome
both o net fuel nonce first none c h = c
both o net fuel nonce first (some (result, requests)) c h = h

-- With rounds of half a second or more, fuel for all rounds of a wait, a nonce, and a first request
-- whose priority fee is at most its whole fee, the call returns a result; the requests signed are at
-- most one more than the replacements allowed, all with the nonce, the fees of each at least those
-- of the one before it, and the priority fee never above the whole fee.
pub broadcast_with_replacement-SignsInOrder :
    (o : BroadcastOptions) (net : Network) (fuel nonce : ℕ) (tx : TransactionRequest)
    → Paced net
    → rounds o ≤ fuel
    → chosen_nonce net tx ≡ ok nonce
    → (start tx nonce).current.priority_fee ≤ (start tx nonce).current.max_fee
    → SignsInOrder o nonce (broadcast_with_replacement o net fuel tx)
unfolding broadcast_with_replacement
broadcast_with_replacement-SignsInOrder o net fuel nonce tx paced enough chosen h =
    both o net fuel nonce (start tx nonce).current (broadcast_with_replacement o net fuel tx)
      (broadcast_with_replacement-Concludes o net fuel nonce tx paced enough chosen)
      (rw (chosen, broadcast_with_replacement)
        (attempts-AreInOrder o net fuel nonce o.max_replacements (start tx nonce) (omega arith)
          ((refl, h), refl)))
