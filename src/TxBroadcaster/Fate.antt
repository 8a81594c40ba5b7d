-- ===== src/TxBroadcaster/Fate.antt =====
-- What a result of the broadcaster says of the network, and that there is always one.
use liquid_bot.Prelude.{
  ℕ, zero, suc, ◌+◌, ◌*◌, ◌/◌, ◌≤◌, ◌<◌, ◌≡◌, ◌≢◌, refl, ◌∙◌, true, false, none, some, List, [],
  ◌∷◌, map, arith, In, here, there, ltb, if◌then◌else◌, Bool-cases, Option-cases, inl, inr,
}
use liquid_bot.Prelude.Text.{Text, truthy}
use liquid_bot.Prelude.Result.{ok, err}
use liquid_bot.TxBroadcaster.{
  TransactionReceipt, BroadcastResult, mined, pending, failed, BroadcastOptions, Fees, Network,
  find_hash, hash_or_null, broadcast_to_all_rpcs, Loop, rpc_used, Polled, receipt_found, not_mined,
  out_of_fuel, poll, failed_to_broadcast, transaction_reverted,
}

-- A round of the wait takes half a second at least, which is what its timer is set to.
abbrev pub Paced : Network → Type 0
Paced net = (a k : ℕ) → net.elapsed a k + 500 ≤ net.elapsed a (suc k)

-- The rounds that a wait can have.
abbrev pub rounds : BroadcastOptions → ℕ
rounds o = o.replacement_delay_ms / 500 + 2

-- Some endpoint took a transaction and answered with this hash.
pub record IsAccepted (o : BroadcastOptions) (net : Network) (hash : Text) : Type 0 where
  pub attempt : ℕ
  pub url : Text
  pub signed_tx : Text
  pub listed : In url o.rpc_urls
  pub answered : net.broadcast_transaction attempt url signed_tx ≡ some hash

-- A receipt that was read for this hash.
pub record IsReported (net : Network) (hash : Text) (receipt : TransactionReceipt) : Type 0 where
  pub attempt : ℕ
  pub round : ℕ
  pub answered : net.get_transaction_receipt attempt round hash ≡ some receipt

-- The reason for each result, from the first request `first` on.
pub data Explains (o : BroadcastOptions) (net : Network) (first : Fees)
    : BroadcastResult → Type 0 where
  is_mined :
      {hash : Text} {receipt : TransactionReceipt}
      → IsAccepted o net hash
      → IsReported net hash receipt
      → receipt.status ≡ some 1
      → Explains o net first (mined hash receipt (rpc_used o))
  still_pending :
      {hash : Text} → IsAccepted o net hash → Explains o net first (pending hash (rpc_used o))
  is_reverted :
      {hash : Text} {receipt : TransactionReceipt}
      → IsAccepted o net hash
      → IsReported net hash receipt
      → receipt.status ≢ some 1
      → Explains o net first (failed transaction_reverted (some hash))
  not_signed :
      {fees : Fees} {message : Text}
      → net.sign_transaction fees ≡ err message
      → Explains o net first (failed message none)
  never_broadcast :
      {signed_tx : Text}
      → net.sign_transaction first ≡ ok signed_tx
      → ((a : ℕ) → a ≤ o.max_replacements → broadcast_to_all_rpcs o net a signed_tx ≡ none)
      → Explains o net first (failed failed_to_broadcast none)

-- The loop, before an attempt: nothing was broadcast yet, or some transaction was.
pub data IsUnderway (o : BroadcastOptions) (net : Network) (first : Fees) (s : Loop) : Type 0 where
  is_fresh :
      s.last_tx_hash ≡ none
      → s.broadcast_succeeded_once ≡ false
      → s.current ≡ first
      → ((a : ℕ) (signed_tx : Text)
          → a < s.attempt
          → net.sign_transaction first ≡ ok signed_tx
          → broadcast_to_all_rpcs o net a signed_tx ≡ none)
      → IsUnderway o net first s
  is_sent :
      (hash : Text)
      → s.last_tx_hash ≡ some hash
      → truthy hash ≡ true
      → s.broadcast_succeeded_once ≡ true
      → IsAccepted o net hash
      → IsUnderway o net first s

module _ (o : BroadcastOptions) (net : Network) where
  -- What the wait for a receipt may end with.
  abbrev pub IsPolled : Text → Polled → Type 0
  IsPolled hash (receipt_found receipt) = IsReported net hash receipt
  IsPolled hash not_mined = Unit {0}
  IsPolled hash out_of_fuel = ⊥

  pub poll-IsPolled :
      Paced net
      → (fuel a k : ℕ) (hash : Text) → o.replacement_delay_ms ≤ fuel * 500 + net.elapsed a k
      → IsPolled hash (poll o net (suc fuel) a k hash)
  unfolding poll
  poll-IsPolled paced zero a k hash h =
      let e : ltb (net.elapsed a k) o.replacement_delay_ms ≡ false = ground arith in rw (e, poll) tt
  poll-IsPolled paced (suc fuel) a k hash h =
      let again = poll-IsPolled paced fuel a (suc k) hash (omega (arith, paced a k)) in
      elim (Bool-cases (ltb (net.elapsed a k) o.replacement_delay_ms)) [
        | inr done ↦ rw (done, poll) tt
        | inl more ↦
            rw (more, poll)
              (elim (Option-cases (net.get_transaction_receipt a k hash)) [
                | inr (receipt, e) ↦ rw e (record { attempt = a; round = k; answered = e })
                | inl e ↦ rw e again
              ])
      ]

  find_hash-In :
      (a : ℕ) (signed_tx hash : Text) (urls : List Text)
      → find_hash (map (λ url. net.broadcast_transaction a url signed_tx) urls) ≡ some hash
      → (url : Text) × In url urls × (net.broadcast_transaction a url signed_tx ≡ some hash)
  unfolding find_hash
  find_hash-In a signed_tx hash [] h = absurd cc
  find_hash-In a signed_tx hash (url ∷ urls) h =
      elim (Option-cases (net.broadcast_transaction a url signed_tx)) [
        | inl e ↦
            let h' : find_hash (map (λ u. net.broadcast_transaction a u signed_tx) urls)
                ≡ some hash =
              rw e at h in
            let (u, m, p) = find_hash-In a signed_tx hash urls h' in (u, there m, p)
        | inr (other, e) ↦ let h' : some other ≡ some hash = rw e at h in (url, here refl, e ∙ h')
      ]

  -- A hash that is not null is not empty, and an endpoint gave it.
  pub broadcast_to_all_rpcs-IsAccepted :
      (a : ℕ) (signed_tx hash : Text)
      → broadcast_to_all_rpcs o net a signed_tx ≡ some hash
      → (truthy hash ≡ true) × IsAccepted o net hash
  unfolding broadcast_to_all_rpcs
  broadcast_to_all_rpcs-IsAccepted a signed_tx hash h =
      elim (Option-cases
        (find_hash (map (λ u. net.broadcast_transaction a u signed_tx) o.rpc_urls))) [
          | inl e ↦ let h' : none ≡ some hash = rw e at h in absurd cc
          | inr (found, e) ↦
              let h' : hash_or_null (some found) ≡ some hash = rw e at h in
              elim (Bool-cases (truthy found)) [
                | inr empty ↦ let h'' : none ≡ some hash = rw empty at h' in absurd cc
                | inl full ↦
                    let h'' : some found ≡ some hash = rw (full, if◌then◌else◌) at h' in
                    let (url, m, p) = find_hash-In a signed_tx found o.rpc_urls e in
                    (
                      ground (arith, full),
                      record {
                        attempt = a;
                        url = url;
                        signed_tx = signed_tx;
                        listed = m;
                        answered = p ∙ h'';
                      },
                    )
              ]
        ]
