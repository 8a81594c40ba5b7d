-- ===== src/UserIndex.antt =====
-- backend-v2/src/predictive/UserIndex.ts: which users have exposure to a token. A set that the
-- source changes in place is written back to the map that holds it.
pub mod Links
pub mod History
pub mod Indexed
use liquid_bot.Prelude.{
  ℕ, ◌==◌, Bool, true, false, Option, none, some, List, [], ◌∷◌, map, if◌then◌else◌,
}
use liquid_bot.Prelude.Text.{Text, text_key, to_lower_case}
use liquid_bot.JsMap
use liquid_bot.JsMap.{JsMap, JsSet, keys, add, set_of}

pub record UserIndex : Type 0 where
  pub token_to_users : JsMap Text (JsSet Text)
  pub user_to_tokens : JsMap Text (JsSet Text)

abbrev pub empty : UserIndex
empty = record { token_to_users = []; user_to_tokens = [] }

-- One round of the removal loop: the user leaves the token's set, and an empty set goes.
unfoldable pub unlink : Text → Text → JsMap Text (JsSet Text) → JsMap Text (JsSet Text)
unlink user token m = elim (JsMap.get token m) [
  | none ↦ m
  | some users ↦
      let rest = JsMap.delete user users in
      if JsMap.size rest == 0 then JsMap.delete token m else JsMap.set token rest m
]

unfoldable pub unlink_all : Text → List Text → JsMap Text (JsSet Text) → JsMap Text (JsSet Text)
unfolding unlink
unlink_all user [] m = m
unlink_all user (token ∷ tokens) m = unlink_all user tokens (unlink user token m)

-- The removal loop over the tokens that a user had.
unfoldable pub unlink_previous :
    Text → Option (JsSet Text) → JsMap Text (JsSet Text) → JsMap Text (JsSet Text)
unfolding unlink_all
unlink_previous user none m = m
unlink_previous user (some previous) m = unlink_all user (keys previous) m

abbrev pub with_token : Text → JsMap Text (JsSet Text) → JsMap Text (JsSet Text)
with_token token m = if JsMap.has token m then m else JsMap.set token [] m

-- One round of the adding loop. The set is there, so that the first case never applies.
unfoldable pub link : Text → Text → JsMap Text (JsSet Text) → JsMap Text (JsSet Text)
link user token m = elim (JsMap.get token (with_token token m)) [
  | none ↦ with_token token m
  | some users ↦ JsMap.set token (add user users) (with_token token m)
]

unfoldable pub link_all : Text → List Text → JsMap Text (JsSet Text) → JsMap Text (JsSet Text)
unfolding link
link_all user [] m = m
link_all user (token ∷ tokens) m = link_all user tokens (link user token m)

unfoldable pub set_user_tokens : Text → List Text → UserIndex → UserIndex
unfolding unlink_previous link_all
set_user_tokens user_address token_addresses i =
    let user = to_lower_case user_address in
    let tokens = map to_lower_case token_addresses in
    record {
      token_to_users =
          link_all user tokens
            (unlink_previous user (JsMap.get user i.user_to_tokens) i.token_to_users);
      user_to_tokens = JsMap.set user (set_of tokens) i.user_to_tokens;
    }

unfoldable pub get_users_for_token : Text → UserIndex → JsSet Text
get_users_for_token token i = elim (JsMap.get (to_lower_case token) i.token_to_users) [
  | none ↦ []
  | some users ↦ users
]

unfoldable pub remove_user : Text → UserIndex → UserIndex
unfolding unlink_previous
remove_user user_address i =
    let user = to_lower_case user_address in
    record {
      token_to_users = unlink_previous user (JsMap.get user i.user_to_tokens) i.token_to_users;
      user_to_tokens = JsMap.delete user i.user_to_tokens;
    }

unfoldable pub clear : UserIndex → UserIndex
clear i = empty

unfoldable pub get_indexed_tokens : UserIndex → List Text
get_indexed_tokens i = keys i.token_to_users
