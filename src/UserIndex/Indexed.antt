-- ===== src/UserIndex/Indexed.antt =====
-- Which tokens the index lists.
use mathlib.Core.Path.{subst}
use liquid_bot.Prelude.{
  ap, sym, ◌==◌, ◌≤◌, ◌≡◌, ◌↔◌, refl, ◌∙◌, true, false, Option, none, some, List, [], ◌∷◌, map,
  arith, if◌then◌else◌, Bool-cases, Option-cases, inl, inr, beq_self,
}
use liquid_bot.Prelude.Text.{Text, text_key, to_lower_case}
use liquid_bot.JsMap
use liquid_bot.JsMap.{JsMap, JsSet, keys, add, includes}
use liquid_bot.JsMap.Laws.{get-set, get-delete, has-get, get-some-has}
use liquid_bot.JsMap.Sets.{includes-keys}
use liquid_bot.UserIndex.{
  unlink, unlink_all, unlink_previous, with_token, link, link_all, set_user_tokens, remove_user,
  clear, get_indexed_tokens,
}
use liquid_bot.UserIndex.Links.{linked, within, has-with_token}
use liquid_bot.UserIndex.History.{
  Call, sets, removes, clears, after_calls, exposed, after_calls-IsConsistent, linked-exposed,
}

-- No token has the empty set.
abbrev IsPopulated : JsMap Text (JsSet Text) → Type 0
IsPopulated m = (t : Text) (s : JsSet Text) → JsMap.get t m ≡ some s → 1 ≤ JsMap.size s

delete-IsPopulated :
    (t : Text) (m : JsMap Text (JsSet Text)) → IsPopulated m → IsPopulated (JsMap.delete t m)
delete-IsPopulated t m h a s g = ground (arith, get-delete t a m, h a s)

some_eq : (users s : JsSet Text) → some users ≡ some s → users ≡ s
some_eq users s h = cc

set-IsPopulated :
    (t : Text) (users : JsSet Text) (m : JsMap Text (JsSet Text))
    → 1 ≤ JsMap.size users
    → ((a : Text) (s : JsSet Text)
        → text_key.beq t a ≡ false
        → JsMap.get a m ≡ some s
        → 1 ≤ JsMap.size s)
    → IsPopulated (JsMap.set t users m)
set-IsPopulated t users m some_user h a s g = elim (Bool-cases (text_key.beq t a)) [
  | inl y ↦
      subst (λ r. 1 ≤ JsMap.size r)
        (some_eq users s
          (sym (get-set t a users m ∙ ap (λ b. if b then some users else JsMap.get a m) y) ∙ g))
        some_user
  | inr n ↦
      h a s n (sym (get-set t a users m ∙ ap (λ b. if b then some users else JsMap.get a m) n) ∙ g)
]

unlink-IsPopulated :
    (u t : Text) (m : JsMap Text (JsSet Text)) → IsPopulated m → IsPopulated (unlink u t m)
unfolding unlink
unlink-IsPopulated u t m h = elim (Option-cases (JsMap.get t m)) [
  | inl n ↦ rw (n, unlink) h
  | inr (users, x) ↦ elim (Bool-cases (JsMap.size (JsMap.delete u users) == 0)) [
    | inl z ↦ rw (x, unlink) (rw (z, if◌then◌else◌) (delete-IsPopulated t m h))
    | inr z ↦
        rw (x, unlink)
          (rw (z, if◌then◌else◌)
            (set-IsPopulated t (JsMap.delete u users) m (ground arith) (λ a s _ g. h a s g)))
  ]
]

get-with_token_ne :
    (t a : Text) (m : JsMap Text (JsSet Text))
    → text_key.beq t a ≡ false
    → JsMap.get a (with_token t m) ≡ JsMap.get a m
get-with_token_ne t a m ne = elim (Bool-cases (JsMap.has t m)) [
  | inl y ↦ rw (y, if◌then◌else◌) refl
  | inr n ↦
      rw (n, if◌then◌else◌) (get-set t a [] m ∙ ap (λ b. if b then some [] else JsMap.get a m) ne)
]

size-add : (u : Text) (users : JsSet Text) → 1 ≤ JsMap.size (add u users)
unfolding JsMap.set
size-add u [] = omega arith
size-add u ((j, x) ∷ users) = elim (Bool-cases (text_key.beq j u)) [
  | inl y ↦ rw (y, if◌then◌else◌) (omega arith)
  | inr n ↦ rw (n, if◌then◌else◌) (omega arith)
]

link-IsPopulated :
    (u t : Text) (m : JsMap Text (JsSet Text)) → IsPopulated m → IsPopulated (link u t m)
unfolding link
link-IsPopulated u t m h = elim (Option-cases (JsMap.get t (with_token t m))) [
  | inl n ↦ absurd (ground (arith, has-get t (with_token t m) n, has-with_token t m))
  | inr (users, x) ↦
      rw (x, link)
        (set-IsPopulated t (add u users) (with_token t m) (size-add u users)
          (λ a s ne g. h a s (sym (get-with_token_ne t a m ne) ∙ g)))
]

unlink_all-IsPopulated :
    (u : Text) (ts : List Text) (m : JsMap Text (JsSet Text))
    → IsPopulated m
    → IsPopulated (unlink_all u ts m)
unfolding unlink_all
unlink_all-IsPopulated u [] m h = h
unlink_all-IsPopulated u (t ∷ ts) m h =
    unlink_all-IsPopulated u ts (unlink u t m) (unlink-IsPopulated u t m h)

unlink_previous-IsPopulated :
    (u : Text) (previous : Option (JsSet Text)) (m : JsMap Text (JsSet Text))
    → IsPopulated m
    → IsPopulated (unlink_previous u previous m)
unfolding unlink_previous
unlink_previous-IsPopulated u none m h = h
unlink_previous-IsPopulated u (some previous) m h = unlink_all-IsPopulated u (keys previous) m h

link_all-IsPopulated :
    (u : Text) (ts : List Text) (m : JsMap Text (JsSet Text))
    → IsPopulated m
    → IsPopulated (link_all u ts m)
unfolding link_all
link_all-IsPopulated u [] m h = h
link_all-IsPopulated u (t ∷ ts) m h =
    link_all-IsPopulated u ts (link u t m) (link-IsPopulated u t m h)

no_sets : IsPopulated []
unfolding JsMap.get
no_sets a s g = absurd cc

after_calls-IsPopulated : (calls : List Call) → IsPopulated (after_calls calls).token_to_users
unfolding after_calls set_user_tokens remove_user clear
after_calls-IsPopulated [] = no_sets
after_calls-IsPopulated (sets user tokens ∷ earlier) =
    link_all-IsPopulated (to_lower_case user) (map to_lower_case tokens) _ (
      unlink_previous-IsPopulated (to_lower_case user)
        (JsMap.get (to_lower_case user) (after_calls earlier).user_to_tokens)
        (after_calls earlier).token_to_users (after_calls-IsPopulated earlier))
after_calls-IsPopulated (removes user ∷ earlier) =
    unlink_previous-IsPopulated (to_lower_case user)
      (JsMap.get (to_lower_case user) (after_calls earlier).user_to_tokens)
      (after_calls earlier).token_to_users (after_calls-IsPopulated earlier)
after_calls-IsPopulated (clears ∷ earlier) = no_sets

-- A set with an element has one.
element : (s : JsSet Text) → 1 ≤ JsMap.size s → (u : Text) × (JsMap.has u s ≡ true)
unfolding JsMap.has
element [] h = absurd (omega (arith, h))
element ((u, x) ∷ s) h = (u, ground (arith, beq_self u))

exposed-linked :
    (calls : List Call) (user token : Text)
    → exposed user token calls ≡ linked token user (after_calls calls).token_to_users
exposed-linked calls user token =
    sym (after_calls-IsConsistent calls user token ∙ linked-exposed user token calls)

linked-has : (t u : Text) (m : JsMap Text (JsSet Text)) → linked t u m ≡ true → JsMap.has t m ≡ true
linked-has t u m h = elim (Option-cases (JsMap.get t m)) [
  | inl n ↦ absurd (ground (arith, sym h ∙ ap (within u) n))
  | inr (s, x) ↦ get-some-has t m x
]

-- After any history of calls, a token is listed exactly if some user is exposed to it: no token
-- stays in the index without users.
pub get_indexed_tokens-exposed :
    (calls : List Call) (token : Text)
    → (includes token (get_indexed_tokens (after_calls calls)) ≡ true)
      ↔ ((user : Text) × (exposed user token calls ≡ true))
unfolding get_indexed_tokens
get_indexed_tokens-exposed calls token =
    let m = (after_calls calls).token_to_users in
    (
      (λ h. elim (Option-cases (JsMap.get token m)) [
        | inl n ↦ absurd (ground (arith, has-get token m n, includes-keys token m))
        | inr (s, x) ↦
            let (u, y) = element s (after_calls-IsPopulated calls token s x) in
            (u, exposed-linked calls u token ∙ ap (within u) x ∙ y)
      ]),
      (λ h.
          includes-keys token m
          ∙ linked-has token h.0 m (sym (exposed-linked calls h.0 token) ∙ h.1)),
    )
