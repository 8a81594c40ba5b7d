-- ===== src/UserIndex/History.antt =====
-- The index against the history of its calls, the latest first.
use liquid_bot.Prelude.{
  ap, sym, ◌≡◌, refl, ◌∙◌, Bool, false, List, [], ◌∷◌, map, arith, if◌then◌else◌, Bool-cases,
  Option-cases, inl, inr,
}
use liquid_bot.Prelude.Text.{Text, text_key, to_lower_case}
use liquid_bot.JsMap
use liquid_bot.JsMap.{JsMap, JsSet, keys, set_of, includes}
use liquid_bot.JsMap.Sets.{has-set_of, includes-keys}
use liquid_bot.UserIndex.{
  UserIndex, empty, unlink_previous, set_user_tokens, get_users_for_token, remove_user, clear,
}
use liquid_bot.UserIndex.Links.{
  linked, within, linked-set, linked-delete, linked-unlink_all, linked-link_all,
}

pub data Call : Type 0 where
  sets : Text → List Text → Call
  removes : Text → Call
  clears : Call

unfoldable pub step : Call → UserIndex → UserIndex
step (sets user tokens) i = set_user_tokens user tokens i
step (removes user) i = remove_user user i
step clears i = clear i

unfoldable pub after_calls : List Call → UserIndex
unfolding step
after_calls [] = empty
after_calls (call ∷ earlier) = step call (after_calls earlier)

-- What the calls say: the tokens that a user was given last, unless the user was removed since.
unfoldable pub exposed : Text → Text → List Call → Bool
exposed user token [] = false
exposed user token (sets u ts ∷ earlier) =
    if text_key.beq (to_lower_case u) user
    then includes token (map to_lower_case ts)
    else exposed user token earlier
exposed user token (removes u ∷ earlier) =
    if text_key.beq (to_lower_case u) user then false else exposed user token earlier
exposed user token (clears ∷ earlier) = false

-- Both maps hold the same links.
abbrev pub IsConsistent : UserIndex → Type 0
IsConsistent i =
    (user token : Text) → linked token user i.token_to_users ≡ linked user token i.user_to_tokens

-- After the removal loop a consistent index has no link of the user left.
linked-unlink_previous :
    (u v t : Text) (i : UserIndex)
    → IsConsistent i
    → linked t v (unlink_previous u (JsMap.get u i.user_to_tokens) i.token_to_users)
      ≡ (if text_key.beq u v then false else linked t v i.token_to_users)
unfolding unlink_previous
linked-unlink_previous u v t i c = elim (Option-cases (JsMap.get u i.user_to_tokens)) [
  | inl n ↦
      rw (n, unlink_previous)
        (elim (Bool-cases (text_key.beq u v)) [
          | inl y ↦
              rw (y, if◌then◌else◌)
                (ap (λ w. linked t w i.token_to_users) (sym ((text_key.beq_iff u v).0 y))
                  ∙ c u t
                  ∙ ap (within t) n)
          | inr z ↦ rw (z, if◌then◌else◌) refl
        ])
  | inr (previous, x) ↦
      rw (x, unlink_previous)
        (elim (Bool-cases (text_key.beq u v)) [
          | inl y ↦ ground (
            arith,
            linked-unlink_all u v t (keys previous) i.token_to_users,
            includes-keys t previous,
            ap (λ w. linked t w i.token_to_users) (sym ((text_key.beq_iff u v).0 y))
                ∙ c u t
                ∙ ap (within t) x,
          )
          | inr z ↦ ground (arith, linked-unlink_all u v t (keys previous) i.token_to_users)
        ])
]

set_user_tokens-IsConsistent :
    (user : Text) (tokens : List Text) (i : UserIndex)
    → IsConsistent i
    → IsConsistent (set_user_tokens user tokens i)
unfolding set_user_tokens
set_user_tokens-IsConsistent user tokens i c v t =
    let u = to_lower_case user in
    let ts = map to_lower_case tokens in
    ground (
      arith,
      linked-link_all u v t ts (unlink_previous u (JsMap.get u i.user_to_tokens) i.token_to_users),
      linked-unlink_previous u v t i c,
      linked-set u v t (set_of ts) i.user_to_tokens,
      has-set_of t ts,
      c v t,
    )

remove_user-IsConsistent :
    (user : Text) (i : UserIndex) → IsConsistent i → IsConsistent (remove_user user i)
unfolding remove_user
remove_user-IsConsistent user i c v t =
    let u = to_lower_case user in
    ground (arith, linked-unlink_previous u v t i c, linked-delete u v t i.user_to_tokens, c v t)

-- The two maps of the index always hold the same links.
pub after_calls-IsConsistent : (calls : List Call) → IsConsistent (after_calls calls)
unfolding after_calls clear JsMap.get
after_calls-IsConsistent [] v t = refl
after_calls-IsConsistent (sets user tokens ∷ earlier) v t =
    set_user_tokens-IsConsistent user tokens (after_calls earlier)
      (after_calls-IsConsistent earlier) v t
after_calls-IsConsistent (removes user ∷ earlier) v t =
    remove_user-IsConsistent user (after_calls earlier) (after_calls-IsConsistent earlier) v t
after_calls-IsConsistent (clears ∷ earlier) v t = refl

pub linked-exposed :
    (v t : Text) (calls : List Call)
    → linked v t (after_calls calls).user_to_tokens ≡ exposed v t calls
unfolding after_calls set_user_tokens remove_user clear exposed JsMap.get
linked-exposed v t [] = refl
linked-exposed v t (sets user tokens ∷ earlier) =
    let ts = map to_lower_case tokens in
    ground (
      arith,
      linked-set (to_lower_case user) v t (set_of ts) (after_calls earlier).user_to_tokens,
      has-set_of t ts,
      linked-exposed v t earlier,
    )
linked-exposed v t (removes user ∷ earlier) = ground (
  arith,
  linked-delete (to_lower_case user) v t (after_calls earlier).user_to_tokens,
  linked-exposed v t earlier,
)
linked-exposed v t (clears ∷ earlier) = refl

has-get_users_for_token :
    (v t : Text) (i : UserIndex)
    → JsMap.has v (get_users_for_token t i) ≡ linked (to_lower_case t) v i.token_to_users
unfolding get_users_for_token JsMap.has
has-get_users_for_token v t i = elim (Option-cases (JsMap.get (to_lower_case t) i.token_to_users)) [
  | inl n ↦ rw (n, get_users_for_token) refl
  | inr (s, x) ↦ rw (x, get_users_for_token) refl
]

-- After any history of calls, the users found for a token are exactly those whose last call gave
-- them the token, where upper and lower case are not told apart.
pub get_users_for_token-exposed :
    (calls : List Call) (user token : Text)
    → JsMap.has (to_lower_case user) (get_users_for_token token (after_calls calls))
      ≡ exposed (to_lower_case user) (to_lower_case token) calls
get_users_for_token-exposed calls user token =
    has-get_users_for_token (to_lower_case user) token (after_calls calls)
    ∙ after_calls-IsConsistent calls (to_lower_case user) (to_lower_case token)
    ∙ linked-exposed (to_lower_case user) (to_lower_case token) calls
