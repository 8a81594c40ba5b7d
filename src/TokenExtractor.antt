-- ===== src/TokenExtractor.antt =====
-- backend-v2/src/predictive/tokenExtractor.ts: the tokens that a user's reserves expose it to.
use liquid_bot.Prelude.{
  ◌≡◌, refl, ◌∙◌, Bool, false, ◌&&◌, ◌||◌, List, [], ◌∷◌, arith, ltb, if◌then◌else◌, Bool-cases,
  inl, inr,
}
use liquid_bot.Prelude.Text.{Text, codes, text_key, to_lower_case}
use liquid_bot.JsMap
use liquid_bot.JsMap.{JsSet, keys, add, includes}
use liquid_bot.JsMap.Sets.{includes-keys}
use liquid_bot.JsMap.Laws.{has-set}
use liquid_bot.Planner.Types.{UserReserveData}

abbrev pub lst_tokens_to_eth_anchor : List Text
lst_tokens_to_eth_anchor =
    codes "0x04c0599ae5a44757c0af6f9ec3b93da8976c150a"
    ∷ codes "0xc1cba3fcea344f92d9239c08c0568f6f2f0ee452"
    ∷ codes "0x2ae3f1ec7f1f5012cfeab0185bfc7aa3cf0dec22"
    ∷ []

abbrev pub weth_address : Text
weth_address = codes "0x4200000000000000000000000000000000000006"

unfoldable pub is_exposed : UserReserveData → Bool
is_exposed reserve =
    ltb 0 reserve.current_a_token_balance
    || (ltb 0 reserve.current_stable_debt || ltb 0 reserve.current_variable_debt)

-- One round of the loop.
unfoldable pub add_reserve : UserReserveData → JsSet Text → JsSet Text
unfolding is_exposed
add_reserve reserve tokens =
    let token = to_lower_case reserve.underlying_asset in
    if is_exposed reserve
    then if includes token lst_tokens_to_eth_anchor
      then add (to_lower_case weth_address) (add token tokens)
      else add token tokens
    else tokens

unfoldable pub add_reserves : List UserReserveData → JsSet Text → JsSet Text
unfolding add_reserve
add_reserves [] tokens = tokens
add_reserves (reserve ∷ reserves) tokens = add_reserves reserves (add_reserve reserve tokens)

unfoldable pub extract_user_tokens : List UserReserveData → List Text
unfolding add_reserves
extract_user_tokens reserves = keys (add_reserves reserves [])

unfoldable pub has_any_exposure : List UserReserveData → Bool
unfolding is_exposed
has_any_exposure [] = false
has_any_exposure (r ∷ reserves) = is_exposed r || has_any_exposure reserves

-- The tokens of one reserve: its own, and WETH for a staked ether token.
unfoldable pub exposes : Text → UserReserveData → Bool
exposes token reserve =
    is_exposed reserve
    && (text_key.beq (to_lower_case reserve.underlying_asset) token
        || (includes (to_lower_case reserve.underlying_asset) lst_tokens_to_eth_anchor
            && text_key.beq (to_lower_case weth_address) token))

unfoldable pub any_exposes : Text → List UserReserveData → Bool
any_exposes token [] = false
any_exposes token (reserve ∷ reserves) = exposes token reserve || any_exposes token reserves

has-add_reserve :
    (token : Text) (reserve : UserReserveData) (tokens : JsSet Text)
    → JsMap.has token (add_reserve reserve tokens)
      ≡ (exposes token reserve || JsMap.has token tokens)
unfolding add_reserve exposes
has-add_reserve token reserve tokens =
    let asset = to_lower_case reserve.underlying_asset in
    elim (Bool-cases (is_exposed reserve)) [
      | inr n ↦ rw (n, add_reserve) refl
      | inl y ↦ elim (Bool-cases (includes asset lst_tokens_to_eth_anchor)) [
        | inl l ↦
            rw (y, add_reserve)
              (rw (l, if◌then◌else◌)
                (ground (
                  arith,
                  has-set (to_lower_case weth_address) token tt (add asset tokens),
                  has-set asset token tt tokens,
                )))
        | inr l ↦
            rw (y, add_reserve)
              (rw (l, if◌then◌else◌) (ground (arith, has-set asset token tt tokens)))
      ]
    ]

has-add_reserves :
    (token : Text) (reserves : List UserReserveData) (tokens : JsSet Text)
    → JsMap.has token (add_reserves reserves tokens)
      ≡ (any_exposes token reserves || JsMap.has token tokens)
unfolding add_reserves any_exposes
has-add_reserves token [] tokens = refl
has-add_reserves token (reserve ∷ reserves) tokens = ground (
  arith,
  has-add_reserves token reserves (add_reserve reserve tokens),
  has-add_reserve token reserve tokens,
)

-- The tokens extracted are exactly those that some reserve with a balance or a debt exposes.
pub includes-extract_user_tokens :
    (token : Text) (reserves : List UserReserveData)
    → includes token (extract_user_tokens reserves) ≡ any_exposes token reserves
unfolding extract_user_tokens JsMap.has
includes-extract_user_tokens token reserves =
    includes-keys token (add_reserves reserves [])
    ∙ ground (arith, has-add_reserves token reserves [])
