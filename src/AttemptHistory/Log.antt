-- ===== src/AttemptHistory/Log.antt =====
-- The history against the log of all calls.
use liquid_bot.Prelude.{
  ℕ, zero, suc, ap, sym, ◌-◌, ◌≤◌, ◌<◌, ◌≡◌, refl, ◌∙◌, true, Option, none, some, List, [], ◌∷◌,
  ◌++◌, arith, length, drop, ltb, if◌then◌else◌, Bool-cases, inl, inr, length-append, length-drop,
}
use liquid_bot.Prelude.Text.{Text, text_key, to_lower_case}
use liquid_bot.JsMap
use liquid_bot.JsMap.{JsMap}
use liquid_bot.JsMap.Laws.{get-set, get-delete}
use liquid_bot.AttemptHistory.{
  AttemptRecord, AttemptHistory, max_entries_per_user, shift, last, history_or_empty, push,
  record_attempt, get_history, get_last_attempt, clear, is_pending_attempt, or_empty,
  pending_attempt, has_pending, get_pending_attempt,
}

pub data Call : Type 0 where
  records : AttemptRecord → Call
  clears : Text → Call

-- The latest call first.
unfoldable pub after_calls : List Call → AttemptHistory
after_calls [] = []
after_calls (records attempt ∷ earlier) = record_attempt attempt (after_calls earlier)
after_calls (clears user ∷ earlier) = clear user (after_calls earlier)

-- All attempts on a user since the last `clear`, the oldest first.
unfoldable pub log : Text → List Call → List AttemptRecord
log user [] = []
log user (records attempt ∷ earlier) =
    if text_key.beq (to_lower_case attempt.user) user
    then log user earlier ++ (attempt ∷ [])
    else log user earlier
log user (clears u ∷ earlier) = if text_key.beq (to_lower_case u) user then [] else log user earlier

-- The last `n`.
abbrev pub last_n {ℓ} : {A : Type ℓ} → ℕ → List A → List A
last_n n xs = drop (length xs - n) xs

module _ {ℓ} {A : Type ℓ} where
  drop-append : (n : ℕ) (xs ys : List A) → n ≤ length xs → drop n (xs ++ ys) ≡ drop n xs ++ ys
  drop-append zero xs ys h = refl
  drop-append (suc n) [] ys h = absurd (omega (arith, h))
  drop-append (suc n) (x ∷ xs) ys h = drop-append n xs ys (omega (arith, h))

  shift-drop : (n : ℕ) (xs : List A) → shift (drop n xs) ≡ drop (suc n) xs
  shift-drop zero [] = refl
  shift-drop zero (x ∷ xs) = refl
  shift-drop (suc n) [] = refl
  shift-drop (suc n) (x ∷ xs) = shift-drop n xs

  last-drop : (n : ℕ) (xs : List A) → n < length xs → last (drop n xs) ≡ last xs
  unfolding last
  last-drop zero xs h = refl
  last-drop (suc n) [] h = absurd (omega (arith, h))
  last-drop (suc n) (x ∷ []) h = absurd (omega (arith, h))
  last-drop (suc n) (x ∷ y ∷ xs) h = last-drop n (y ∷ xs) (omega (arith, h))

-- Pushing keeps the last ten.
push-last_n :
    (attempt : AttemptRecord) (xs : List AttemptRecord)
    → push attempt (last_n max_entries_per_user xs)
      ≡ last_n max_entries_per_user (xs ++ (attempt ∷ []))
unfolding push
push-last_n attempt xs =
    let k = length xs - max_entries_per_user in
    let all = xs ++ (attempt ∷ []) in
    let joined = drop-append k xs (attempt ∷ []) (omega arith) in
    elim (Bool-cases (ltb max_entries_per_user (length (drop k xs ++ (attempt ∷ []))))) [
      | inl y ↦
          rw (y, if◌then◌else◌)
            (ap shift (sym joined)
              ∙ shift-drop k all
              ∙ ap (λ n. drop n all) {x = suc k} {y = length all - max_entries_per_user}
                  (ground (
                    arith,
                    length-drop k xs,
                    length-append (drop k xs) (attempt ∷ []),
                    length-append xs (attempt ∷ []),
                  )))
      | inr n ↦
          rw (n, if◌then◌else◌)
            (sym joined
              ∙ ap (λ n. drop n all) {x = k} {y = length all - max_entries_per_user}
                  (ground (
                    arith,
                    length-drop k xs,
                    length-append (drop k xs) (attempt ∷ []),
                    length-append xs (attempt ∷ []),
                  )))
    ]

history_or_empty-set :
    (k user : Text) (entries : List AttemptRecord) (h : AttemptHistory)
    → history_or_empty user (JsMap.set k entries h)
      ≡ (if text_key.beq k user then entries else history_or_empty user h)
unfolding history_or_empty
history_or_empty-set k user entries h = elim (Bool-cases (text_key.beq k user)) [
  | inl y ↦ ap or_empty (get-set k user entries h) ∙ rw y refl
  | inr n ↦ ap or_empty (get-set k user entries h) ∙ rw n refl
]

history_or_empty-delete :
    (k user : Text) (h : AttemptHistory)
    → history_or_empty user (JsMap.delete k h)
      ≡ (if text_key.beq k user then [] else history_or_empty user h)
unfolding history_or_empty
history_or_empty-delete k user h = elim (Bool-cases (text_key.beq k user)) [
  | inl y ↦ ap or_empty (get-delete k user h) ∙ rw y refl
  | inr n ↦ ap or_empty (get-delete k user h) ∙ rw n refl
]

history_or_empty-log :
    (user : Text) (calls : List Call)
    → history_or_empty user (after_calls calls) ≡ last_n max_entries_per_user (log user calls)
unfolding after_calls log record_attempt clear history_or_empty JsMap.get
history_or_empty-log user [] = refl
history_or_empty-log user (records attempt ∷ earlier) =
    let k = to_lower_case attempt.user in
    let h = after_calls earlier in
    history_or_empty-set k user (push attempt (history_or_empty k h)) h
    ∙ elim (Bool-cases (text_key.beq k user)) [
      | inl y ↦
          rw (y, if◌then◌else◌)
            (ap (λ j. push attempt (history_or_empty j h)) ((text_key.beq_iff k user).0 y)
              ∙ ap (push attempt) (history_or_empty-log user earlier)
              ∙ push-last_n attempt (log user earlier))
      | inr n ↦ rw (n, if◌then◌else◌) (history_or_empty-log user earlier)
    ]
history_or_empty-log user (clears u ∷ earlier) =
    history_or_empty-delete (to_lower_case u) user (after_calls earlier)
    ∙ elim (Bool-cases (text_key.beq (to_lower_case u) user)) [
      | inl y ↦ rw (y, if◌then◌else◌) refl
      | inr n ↦ rw (n, if◌then◌else◌) (history_or_empty-log user earlier)
    ]

-- After any history of calls, `getHistory` has the last ten attempts on the user since the last
-- `clear`, the oldest first; upper and lower case are not told apart.
pub get_history-log :
    (calls : List Call) (user : Text)
    → get_history user (after_calls calls)
      ≡ last_n max_entries_per_user (log (to_lower_case user) calls)
unfolding get_history
get_history-log calls user = history_or_empty-log (to_lower_case user) calls

last-last_n : (xs : List AttemptRecord) → last (last_n max_entries_per_user xs) ≡ last xs
unfolding last
last-last_n [] = refl
last-last_n (x ∷ xs) = last-drop (length (x ∷ xs) - max_entries_per_user) (x ∷ xs) (omega arith)

pending-some :
    (o : Option AttemptRecord)
    → is_pending_attempt o ≡ true
    → (a : AttemptRecord) × (pending_attempt o ≡ some a)
unfolding pending_attempt
pending-some none h = absurd cc
pending-some (some a) h = (a, rw (h, if◌then◌else◌) refl)

-- The user's pending attempt is the latest attempt since the last `clear`, if that is pending; and
-- `hasPending` tells whether there is one.
pub get_pending_attempt-log :
    (calls : List Call) (user : Text)
    → (get_pending_attempt user (after_calls calls)
        ≡ pending_attempt (last (log (to_lower_case user) calls)))
      × (has_pending user (after_calls calls) ≡ true
          → (a : AttemptRecord) × (get_pending_attempt user (after_calls calls) ≡ some a))
unfolding get_pending_attempt get_last_attempt has_pending
get_pending_attempt-log calls user = (
  ap pending_attempt
      (ap last (get_history-log calls user) ∙ last-last_n (log (to_lower_case user) calls)),
  pending-some (get_last_attempt user (after_calls calls)),
)
