-- ===== src/Tests/UserIndex.antt =====
-- Two users, one of which changes tokens.
use liquid_bot.Prelude.{◌≡◌, refl, List, [], ◌∷◌}
use liquid_bot.Prelude.Text.{codes, text_eq, text_key, to_lower_case, lower_unit}
use liquid_bot.JsMap
use liquid_bot.JsMap.{includes, add_all}
use liquid_bot.UserIndex.{
  unlink, unlink_all, unlink_previous, link, link_all, set_user_tokens, get_users_for_token,
  remove_user, clear, get_indexed_tokens,
}
use liquid_bot.UserIndex.History.{
  Call, sets, removes, step, after_calls, exposed, get_users_for_token-exposed,
}

program : Unit {0}
unfolding text_eq to_lower_case lower_unit JsMap.get JsMap.has JsMap.set JsMap.delete includes
    add_all unlink unlink_all unlink_previous link link_all set_user_tokens get_users_for_token
    remove_user clear get_indexed_tokens step after_calls exposed
program = tt

-- The latest call first.
abbrev calls : List Call
calls =
    sets (codes "0xA1") (codes "0xEE" ∷ [])
    ∷ sets (codes "0xb0") (codes "0xdd" ∷ [])
    ∷ sets (codes "0xa1") (codes "0xDD" ∷ codes "0xcc" ∷ codes "0xDd" ∷ [])
    ∷ []

listed : get_indexed_tokens (after_calls calls) ≡ codes "0xdd" ∷ codes "0xee" ∷ []
unfolding program
listed = refl

left : JsMap.keys (get_users_for_token (codes "0xDD") (after_calls calls)) ≡ codes "0xb0" ∷ []
unfolding program
left = refl

gone : get_indexed_tokens (after_calls (removes (codes "0xB0") ∷ calls)) ≡ codes "0xee" ∷ []
unfolding program
gone = refl

-- The theorems at this input.
get_users_for_token-exposed_example :
    JsMap.has
      (to_lower_case (codes "0xA1"))
      (get_users_for_token (codes "0xdd") (after_calls calls))
    ≡ exposed (to_lower_case (codes "0xA1")) (to_lower_case (codes "0xdd")) calls
get_users_for_token-exposed_example =
    get_users_for_token-exposed calls (codes "0xA1") (codes "0xdd")
