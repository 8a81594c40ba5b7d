-- ===== src/ChainlinkListener/Rounds.antt =====
-- What an event of a feed changes, and that a round counts once.
use liquid_bot.Prelude.{
  ℕ, ◌≡◌, ◌⊎◌, refl, ap, ◌∙◌, true, Option, none, some, List, [], ◌∷◌, if◌then◌else◌, Bool-cases,
  Option-cases, inl, inr, beq_self,
}
use liquid_bot.Prelude.Int.{ℤ}
use liquid_bot.Prelude.Text.{Text, text_key}
use liquid_bot.Prelude.Result.{Result, ok, err}
use liquid_bot.JsMap
use liquid_bot.JsMap.{JsMap, JsSet, add}
use liquid_bot.JsMap.Laws.{get-set, has-set}
use liquid_bot.ChainlinkListener.{
  normalize, ChainlinkListener, dedupe_key, Notice, notices, update_of, take_round, with_key,
  handle_log,
}

-- An event of a feed: the time, the symbol, the feed and what the decoder makes of it.
pub record Log : Type 0 where
  pub now : ℕ
  pub symbol : Text
  pub feed : Text
  pub decoded : Result (Option (ℕ × ℤ))

abbrev pub handle : Log → ChainlinkListener → ChainlinkListener × List Notice
handle log l = handle_log log.now log.symbol log.feed log.decoded l

unfoldable pub run : List Log → ChainlinkListener → ChainlinkListener
run [] l = l
run (log ∷ logs) l = run logs (handle log l).0

-- A key stays in the cache.
has-add : (k j : Text) (s : JsSet Text) → JsMap.has j s ≡ true → JsMap.has j (add k s) ≡ true
has-add k j s h =
    has-set k j tt s ∙ elim (Bool-cases (text_key.beq k j)) [ inl y ↦ rw y refl | inr n ↦ rw n h ]

take_round-dedupe :
    (now : ℕ) (symbol feed : Text) (round_id : ℕ) (raw : ℤ) (l : ChainlinkListener)
    → (take_round now symbol feed round_id raw l).0.dedupe_cache ≡ l.dedupe_cache
unfolding take_round
take_round-dedupe now symbol feed round_id raw l =
    elim (Option-cases (JsMap.get feed l.decimals_cache)) [
      | inl e ↦ rw (e, take_round) refl
      | inr (d, e) ↦ rw (e, take_round) refl
    ]

handle_log-has :
    (now : ℕ) (symbol feed key : Text) (decoded : Result (Option (ℕ × ℤ))) (l : ChainlinkListener)
    → JsMap.has key l.dedupe_cache ≡ true
    → JsMap.has key (handle_log now symbol feed decoded l).0.dedupe_cache ≡ true
unfolding handle_log
handle_log-has now symbol feed key (err message) l h = h
handle_log-has now symbol feed key (ok none) l h = h
handle_log-has now symbol feed key (ok (some (round_id, raw))) l h =
    let k = dedupe_key round_id feed in
    elim (Bool-cases (JsMap.has k l.dedupe_cache)) [
      | inl y ↦ rw (y, if◌then◌else◌) h
      | inr n ↦
          rw (n, if◌then◌else◌)
            (ap (JsMap.has key) (take_round-dedupe now symbol feed round_id raw (with_key k l))
              ∙ has-add k key l.dedupe_cache h)
    ]

run-has :
    (logs : List Log) (key : Text) (l : ChainlinkListener)
    → JsMap.has key l.dedupe_cache ≡ true
    → JsMap.has key (run logs l).dedupe_cache ≡ true
unfolding run
run-has [] key l h = h
run-has (log ∷ logs) key l h =
    run-has logs key (handle log l).0
      (handle_log-has log.now log.symbol log.feed key log.decoded l h)

handle_log-has_key :
    (now : ℕ) (symbol feed : Text) (round_id : ℕ) (raw : ℤ) (l : ChainlinkListener)
    → JsMap.has
        (dedupe_key round_id feed)
        (handle_log now symbol feed (ok (some (round_id, raw))) l).0.dedupe_cache
      ≡ true
unfolding handle_log
handle_log-has_key now symbol feed round_id raw l =
    let k = dedupe_key round_id feed in
    elim (Bool-cases (JsMap.has k l.dedupe_cache)) [
      | inl y ↦ rw (y, if◌then◌else◌) y
      | inr n ↦
          rw (n, if◌then◌else◌)
            (ap (JsMap.has k) (take_round-dedupe now symbol feed round_id raw (with_key k l))
              ∙ has-set k k tt l.dedupe_cache
              ∙ ap (λ b. if b then true else JsMap.has k l.dedupe_cache) (beq_self k))
    ]

-- After an event for a round of a feed, and any further events with no clearing of the cache between,
-- another event for that round and feed changes nothing and calls no callback, whatever its answer.
pub handle_log-once :
    (first again : ℕ) (symbol other feed : Text) (round_id : ℕ) (raw new_raw : ℤ) (logs : List Log)
    (l : ChainlinkListener)
    → let m = run logs (handle_log first symbol feed (ok (some (round_id, raw))) l).0 in
      handle_log again other feed (ok (some (round_id, new_raw))) m ≡ (m, [])
unfolding handle_log
handle_log-once first again symbol other feed round_id raw new_raw logs l =
    rw
      (
        run-has logs (dedupe_key round_id feed)
            (handle_log first symbol feed (ok (some (round_id, raw))) l).0
            (handle_log-has_key first symbol feed round_id raw l),
        if◌then◌else◌,
      )
      refl

-- What an event does: it is passed over and no price changes, or every callback is called once, in
-- the order of registration, with the price that is then cached for the feed.
abbrev pub Announces :
    ℕ → Text → Text → ChainlinkListener → ChainlinkListener × List Notice → Type 0
Announces now symbol feed l (m, called) =
    (m.latest_price_1e18 ≡ l.latest_price_1e18) × (called ≡ [])
    ⊎ (round_id : ℕ) × (price : ℤ) × (JsMap.get feed m.latest_price_1e18 ≡ some price)
      × (called ≡ notices l.callbacks (update_of now symbol feed round_id price))

take_round-Announces :
    (now : ℕ) (symbol feed key : Text) (round_id : ℕ) (raw : ℤ) (l : ChainlinkListener)
    → Announces now symbol feed l (take_round now symbol feed round_id raw (with_key key l))
unfolding take_round
take_round-Announces now symbol feed key round_id raw l =
    elim (Option-cases (JsMap.get feed l.decimals_cache)) [
      | inl e ↦ rw (e, take_round) (inl (refl, refl))
      | inr (d, e) ↦
          rw (e, take_round)
            (inr (
              round_id,
              normalize raw d,
              get-set feed feed (normalize raw d) l.latest_price_1e18
                  ∙ ap
                      (λ b.
                        if b then some (normalize raw d) else JsMap.get feed l.latest_price_1e18)
                      (beq_self feed),
              refl,
            ))
    ]

-- Any event either changes no price and calls no callback, or calls each callback once, in order,
-- with the price that is then kept for the feed.
pub handle_log-Announces :
    (now : ℕ) (symbol feed : Text) (decoded : Result (Option (ℕ × ℤ))) (l : ChainlinkListener)
    → Announces now symbol feed l (handle_log now symbol feed decoded l)
unfolding handle_log
handle_log-Announces now symbol feed (err message) l = inl (refl, refl)
handle_log-Announces now symbol feed (ok none) l = inl (refl, refl)
handle_log-Announces now symbol feed (ok (some (round_id, raw))) l =
    let k = dedupe_key round_id feed in
    elim (Bool-cases (JsMap.has k l.dedupe_cache)) [
      | inl y ↦ rw (y, if◌then◌else◌) (inl (refl, refl))
      | inr n ↦ rw (n, if◌then◌else◌) (take_round-Announces now symbol feed k round_id raw l)
    ]
