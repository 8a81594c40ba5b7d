-- ===== src/ActiveRiskSet/Refresh.antt =====
-- The update of the user index.
use liquid_bot.Prelude.{◌≡◌, refl, ◌∙◌, Option, some, List, ◌∷◌, map, if◌then◌else◌, beq_self}
use liquid_bot.Prelude.Text.{Text, text_key, to_lower_case}
use liquid_bot.JsMap
use liquid_bot.JsMap.{includes}
use liquid_bot.Planner.Types.{UserReserveData}
use liquid_bot.UserIndex.{get_users_for_token}
use liquid_bot.UserIndex.History.{
  Call, after_calls, sets, exposed, get_users_for_token-exposed, step,
}
use liquid_bot.TokenExtractor.{extract_user_tokens}
use liquid_bot.ActiveRiskSet.{update_user_index_for_user}

exposed-sets :
    (user : Text) (tokens : List Text) (token : Text) (earlier : List Call)
    → exposed (to_lower_case user) token (sets user tokens ∷ earlier)
      ≡ includes token (map to_lower_case tokens)
unfolding exposed
exposed-sets user tokens token earlier = rw (beq_self (to_lower_case user), if◌then◌else◌) refl

-- When the reserves of a user are read, the index then finds the user for a token exactly if the
-- token is among those extracted from the reserves.
pub update_user_index_for_user-tokens :
    (provider : Text → Option (List UserReserveData)) (user token : Text) (earlier : List Call)
    {reserves : List UserReserveData}
    → provider user ≡ some reserves
    → JsMap.has
        (to_lower_case user)
        (get_users_for_token token (update_user_index_for_user provider user (after_calls earlier)))
      ≡ includes (to_lower_case token) (map to_lower_case (extract_user_tokens reserves))
unfolding update_user_index_for_user after_calls step
update_user_index_for_user-tokens provider user token earlier {reserves} read =
    rw (read, update_user_index_for_user)
      (get_users_for_token-exposed (sets user (extract_user_tokens reserves) ∷ earlier) user token
        ∙ exposed-sets user (extract_user_tokens reserves) (to_lower_case token) earlier)
