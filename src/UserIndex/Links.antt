-- ===== src/UserIndex/Links.antt =====
-- What the loops do to the links between users and tokens.
use liquid_bot.Prelude.{
  ap, sym, ◌==◌, ◌≡◌, refl, Bool, true, false, ◌||◌, ◌&&◌, Option, none, some, List, [], ◌∷◌, arith,
  if◌then◌else◌, Bool-cases, Option-cases, inl, inr, beq_self,
}
use liquid_bot.Prelude.Text.{Text, text_key}
use liquid_bot.JsMap
use liquid_bot.JsMap.{JsMap, JsSet, keys, add, includes}
use liquid_bot.JsMap.Laws.{get-set, get-delete, has-set, has-delete, get-has, has-get}
use liquid_bot.JsMap.Sets.{has-size_zero}
use liquid_bot.UserIndex.{unlink, unlink_all, with_token, link, link_all}

abbrev pub within : Text → Option (JsSet Text) → Bool
within b none = false
within b (some s) = JsMap.has b s

-- `b` is in the set that stands at `a`.
abbrev pub linked : Text → Text → JsMap Text (JsSet Text) → Bool
linked a b m = within b (JsMap.get a m)

pub linked-set :
    (t s v : Text) (users : JsSet Text) (m : JsMap Text (JsSet Text))
    → linked s v (JsMap.set t users m)
      ≡ (if text_key.beq t s then JsMap.has v users else linked s v m)
linked-set t s v users m = elim (Bool-cases (text_key.beq t s)) [
  | inl y ↦ rw (get-set t s users m) (rw y refl)
  | inr n ↦ rw (get-set t s users m) (rw n refl)
]

pub linked-delete :
    (t s v : Text) (m : JsMap Text (JsSet Text))
    → linked s v (JsMap.delete t m) ≡ (if text_key.beq t s then false else linked s v m)
linked-delete t s v m = elim (Bool-cases (text_key.beq t s)) [
  | inl y ↦ rw (get-delete t s m) (rw y refl)
  | inr n ↦ rw (get-delete t s m) (rw n refl)
]

-- A key that is equal is the same.
linked_same :
    (t s v : Text) (m : JsMap Text (JsSet Text))
    → text_key.beq t s ≡ true
    → linked s v m ≡ linked t v m
linked_same t s v m h = ap (λ a. linked a v m) (sym ((text_key.beq_iff t s).0 h))

linked-get :
    (t v : Text) (m : JsMap Text (JsSet Text)) {o : Option (JsSet Text)}
    → JsMap.get t m ≡ o
    → linked t v m ≡ within v o
linked-get t v m h = ap (within v) h

pub linked-unlink :
    (u t v s : Text) (m : JsMap Text (JsSet Text))
    → linked s v (unlink u t m)
      ≡ (if text_key.beq u v && text_key.beq t s then false else linked s v m)
unfolding unlink
linked-unlink u t v s m = elim (Option-cases (JsMap.get t m)) [
  | inl n ↦ rw (n, unlink) (ground (arith, linked_same t s v m, linked-get t v m n))
  | inr (users, x) ↦ elim (Bool-cases (JsMap.size (JsMap.delete u users) == 0)) [
    | inl z ↦
        rw (x, unlink)
          (rw (z, if◌then◌else◌)
            (ground (
              arith,
              linked-delete t s v m,
              linked_same t s v m,
              linked-get t v m x,
              has-delete u v users,
              has-size_zero v (JsMap.delete u users),
            )))
    | inr z ↦
        rw (x, unlink)
          (rw (z, if◌then◌else◌)
            (ground (
              arith,
              linked-set t s v (JsMap.delete u users) m,
              linked_same t s v m,
              linked-get t v m x,
              has-delete u v users,
            )))
  ]
]

linked-with_token :
    (t s v : Text) (m : JsMap Text (JsSet Text)) → linked s v (with_token t m) ≡ linked s v m
unfolding JsMap.has
linked-with_token t s v m = elim (Bool-cases (JsMap.has t m)) [
  | inl y ↦ rw (y, if◌then◌else◌) refl
  | inr n ↦
      rw (n, if◌then◌else◌)
        (ground
          (arith, linked-set t s v [] m, linked_same t s v m, linked-get t v m (get-has t m n)))
]

pub has-with_token : (t : Text) (m : JsMap Text (JsSet Text)) → JsMap.has t (with_token t m) ≡ true
has-with_token t m = elim (Bool-cases (JsMap.has t m)) [
  | inl y ↦ rw (y, if◌then◌else◌) y
  | inr n ↦ rw (n, if◌then◌else◌) (ground (arith, has-set t t [] m, beq_self t))
]

pub linked-link :
    (u t v s : Text) (m : JsMap Text (JsSet Text))
    → linked s v (link u t m) ≡ ((text_key.beq u v && text_key.beq t s) || linked s v m)
unfolding link
linked-link u t v s m = elim (Option-cases (JsMap.get t (with_token t m))) [
  | inl n ↦ absurd (ground (arith, has-get t (with_token t m) n, has-with_token t m))
  | inr (users, x) ↦
      rw (x, link)
        (ground (
          arith,
          linked-set t s v (add u users) (with_token t m),
          has-set u v tt users,
          linked_same t s v m,
          linked-get t v (with_token t m) x,
          linked-with_token t t v m,
          linked-with_token t s v m,
        ))
]

pub linked-unlink_all :
    (u v s : Text) (ts : List Text) (m : JsMap Text (JsSet Text))
    → linked s v (unlink_all u ts m)
      ≡ (if text_key.beq u v && includes s ts then false else linked s v m)
unfolding unlink_all includes
linked-unlink_all u v s [] m = ground arith
linked-unlink_all u v s (t ∷ ts) m =
    ground (arith, linked-unlink_all u v s ts (unlink u t m), linked-unlink u t v s m)

pub linked-link_all :
    (u v s : Text) (ts : List Text) (m : JsMap Text (JsSet Text))
    → linked s v (link_all u ts m) ≡ ((text_key.beq u v && includes s ts) || linked s v m)
unfolding link_all includes
linked-link_all u v s [] m = ground arith
linked-link_all u v s (t ∷ ts) m =
    ground (arith, linked-link_all u v s ts (link u t m), linked-link u t v s m)
