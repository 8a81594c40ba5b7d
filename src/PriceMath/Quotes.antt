-- ===== src/PriceMath/Quotes.antt =====
-- The price of a symbol without the caches of decimals, the counters and the warnings.
use liquid_bot.Prelude.{
  ℕ, ◌≡◌, refl, sym, ap, ◌∙◌, Option, none, some, ◌++◌, arith, Bool-cases, Option-cases, inl, inr,
}
use liquid_bot.Prelude.Int.{ℤ}
use liquid_bot.Prelude.Text.{Text, codes, text_key}
use liquid_bot.Prelude.Result.{Result, ok, err, ◌>>=◌, Result-cases}
use liquid_bot.JsMap
use liquid_bot.JsMap.{JsMap, includes}
use liquid_bot.JsMap.Laws.{get-set}
use liquid_bot.ChainlinkListener.{FeedContract, normalize}
use liquid_bot.PriceMath.{PriceMath, Action, if_truthy}
use liquid_bot.PriceMath.Fetch.{pure, lift, bind, get_chainlink_decimals, read_feed}

-- The answer of a feed in units of 1e-18, read from the chain.
abbrev pub quote_feed : FeedContract → Text → Result ℤ
quote_feed chain feed = do
  answer ← chain.latest_round_data feed
  decimals ← chain.decimals feed
  ok (normalize answer decimals)

abbrev pub quote_symbol : FeedContract → JsMap Text Text → Text → Result ℤ
quote_symbol chain feeds symbol = elim (if_truthy (JsMap.get symbol feeds)) [
  | none ↦ err (codes "No Chainlink feed configured for " ++ symbol)
  | some feed ↦ quote_feed chain feed
]

-- What is cached, or else what is read.
abbrev pub or_read : Option ℤ → Result ℤ → Result ℤ
or_read none r = r
or_read (some price) r = ok price

-- The decimals that are cached are those of the chain.
abbrev pub Agrees : FeedContract → PriceMath → Type 0
Agrees chain s =
    (feed : Text) (d : ℕ)
    → JsMap.get feed s.chainlink_decimals_cache ≡ some d
    → chain.decimals feed ≡ ok d

-- A call gives this result and leaves the feeds and the listener.
abbrev pub Gives :
    {A : Type 0} → FeedContract → PriceMath → Result A → Result A × PriceMath → Type 0
Gives chain s r out =
    (out.0 ≡ r)
    × Agrees chain out.1
    × (out.1.chainlink_feed_addresses ≡ s.chainlink_feed_addresses)
    × (out.1.chainlink_listener ≡ s.chainlink_listener)

-- The rule of `do`: the rest runs on a state with the same feeds and listener.
pub Gives-bind :
    {A B : Type 0} (chain : FeedContract) (m : Action A) (k : A → Action B) (s : PriceMath)
    (r : Result A) (q : A → Result B)
    → Gives chain s r (m s)
    → ((a : A) (t : PriceMath)
        → Agrees chain t
        → t.chainlink_feed_addresses ≡ s.chainlink_feed_addresses
        → t.chainlink_listener ≡ s.chainlink_listener
        → Gives chain t (q a) (k a t))
    → Gives chain s (r >>= q) (bind m k s)
Gives-bind chain m k s (ok a) q g rest =
    rw (g.0, bind) (let h = rest a (m s).1 g.1 g.2 g.3 in (h.0, h.1, h.2 ∙ g.2, h.3 ∙ g.3))
Gives-bind chain m k s (err message) q g rest = rw (g.0, bind) (refl, g.1, g.2, g.3)

module _ (chain : FeedContract) where
  Agrees-set :
      (s : PriceMath) (feed : Text) (d : ℕ)
      → Agrees chain s
      → chain.decimals feed ≡ ok d
      → Agrees chain
          (record s { chainlink_decimals_cache = JsMap.set feed d s.chainlink_decimals_cache })
  Agrees-set s feed d agrees known other e h =
      let got = sym (get-set feed other d s.chainlink_decimals_cache) ∙ h in
      elim (Bool-cases (text_key.beq feed other)) [
        | inl y ↦
            let same : some d ≡ some e = rw y at got in
            ap chain.decimals (sym ((text_key.beq_iff feed other).0 y)) ∙ known ∙ ground arith
        | inr n ↦ let old = rw n at got in agrees other e old
      ]

  get_chainlink_decimals-Gives :
      (feed : Text) (s : PriceMath)
      → Agrees chain s
      → Gives chain s (chain.decimals feed) (get_chainlink_decimals chain feed s)
  unfolding get_chainlink_decimals
  get_chainlink_decimals-Gives feed s agrees =
      elim (Option-cases (JsMap.get feed s.chainlink_decimals_cache)) [
        | inr (d, y) ↦ rw (y, get_chainlink_decimals) (sym (agrees feed d y), agrees, refl, refl)
        | inl n ↦ elim (Result-cases (chain.decimals feed)) [
          | inr (message, f) ↦ rw (n, f, get_chainlink_decimals) (refl, agrees, refl, refl)
          | inl (d, f) ↦
              rw (n, f, get_chainlink_decimals) (refl, Agrees-set s feed d agrees f, refl, refl)
        ]
      ]

  pub read_feed-Gives :
      (feed : Text) (s : PriceMath)
      → Agrees chain s
      → Gives chain s (quote_feed chain feed) (read_feed chain feed s)
  unfolding read_feed
  read_feed-Gives feed s agrees =
      Gives-bind chain (lift (chain.latest_round_data feed))
        (λ answer. bind (get_chainlink_decimals chain feed) (λ d. pure (normalize answer d))) s
        (chain.latest_round_data feed)
        (λ answer. chain.decimals feed >>= λ d. ok (normalize answer d)) (refl, agrees, refl, refl)
        (λ answer t agrees_t feeds listener.
          Gives-bind chain (get_chainlink_decimals chain feed) (λ d. pure (normalize answer d)) t
            (chain.decimals feed) (λ d. ok (normalize answer d))
            (get_chainlink_decimals-Gives feed t agrees_t)
            (λ d u agrees_u feeds_u listener_u. (refl, agrees_u, refl, refl)))
