-- ===== src/PredictiveLoop/Turns.antt =====
-- The rate limit when calls of `handlePriceUpdate` overlap: a call waits in `rescoreUser`, and others
-- begin and take their turns meanwhile, each with the time that it read before its loop.
use liquid_bot.Prelude.{
  ℕ, ◌+◌, ◌≤◌, ◌<◌, ◌≡◌, refl, sym, ap, ◌∙◌, Bool, true, false, ◌&&◌, some, List, [], ◌∷◌, ◌++◌,
  arith, All, if◌then◌else◌, Bool-cases, inl, inr, beq_self,
}
use liquid_bot.Prelude.Text.{Text, text_key}
use liquid_bot.JsMap
use liquid_bot.JsMap.{JsMap}
use liquid_bot.JsMap.Laws.{get-set}
use liquid_bot.PredictiveLoop.{
  PredictiveLoop, World, PriceUpdate, affected_users, rescore_user, is_too_soon, mark, take_turn,
}
use liquid_bot.PredictiveLoop.Limit.{rescore_user-Same, affected_users-Same}

-- What calls do between their waits: one begins, up to its loop; one that read the time comes to a
-- user; a `rescoreUser` goes on. They come in any order here, also in orders that cannot be.
pub data Event : Type 0 where
  begins : PriceUpdate → Event
  turns : ℕ → Text → Event
  rescores : World → Text → Event

unfoldable pub step : Event → PredictiveLoop → PredictiveLoop
step (begins update) l = (affected_users update l).0
step (turns now user) l = (take_turn now user l).0
step (rescores w user) l = (rescore_user w user l).0

-- The time that a call read, if it goes on to `rescoreUser` for the user.
unfoldable pub read_at : Text → Event → PredictiveLoop → List ℕ
read_at user (begins update) l = []
read_at user (turns now other) l =
    if text_key.beq other user && (take_turn now other l).1 then now ∷ [] else []
read_at user (rescores w other) l = []

-- The times that the calls read which read the health factor of the user, in the order of the turns.
unfoldable pub read_times : Text → List Event → PredictiveLoop → List ℕ
unfolding step read_at
read_times user [] l = []
read_times user (e ∷ events) l = read_at user e l ++ read_times user events (step e l)

abbrev pub IsTimed : Event → Type 0
IsTimed (begins update) = Unit
IsTimed (turns now user) = 0 < now
IsTimed (rescores w user) = Unit

-- Each number is larger than every earlier one by the gap at least.
abbrev pub Spaced : ℕ → List ℕ → Type 0
Spaced gap [] = Unit
Spaced gap (t ∷ ts) = All (λ s. t + gap ≤ s) ts × Spaced gap ts

refused :
    (now : ℕ) (user : Text) (l : PredictiveLoop)
    → is_too_soon now l.rescore_rate_limit_ms (JsMap.get user l.last_rescore_time) ≡ true
    → take_turn now user l ≡ (l, false)
unfolding take_turn
refused now user l y = rw (y, if◌then◌else◌) refl

granted :
    (now : ℕ) (user : Text) (l : PredictiveLoop)
    → is_too_soon now l.rescore_rate_limit_ms (JsMap.get user l.last_rescore_time) ≡ false
    → take_turn now user l ≡ (mark now user l, true)
unfolding take_turn
granted now user l n = rw (n, if◌then◌else◌) refl

-- The reads of a user from the outcome of a turn on.
abbrev from_turn : Text → ℕ → Text → List Event → PredictiveLoop × Bool → List ℕ
from_turn user now other events outcome =
    (if text_key.beq other user && outcome.1 then now ∷ [] else [])
    ++ read_times user events outcome.0

choose : (now : ℕ) (b : Bool) (rest : List ℕ) → (if b && false then now ∷ [] else []) ++ rest ≡ rest
choose now true rest = refl
choose now false rest = refl

read_refused :
    (user : Text) (now : ℕ) (other : Text) (events : List Event) (l : PredictiveLoop)
    → is_too_soon now l.rescore_rate_limit_ms (JsMap.get other l.last_rescore_time) ≡ true
    → read_times user (turns now other ∷ events) l ≡ read_times user events l
unfolding read_times
read_refused user now other events l y =
    ap (from_turn user now other events) (refused now other l y)
    ∙ choose now (text_key.beq other user) (read_times user events l)

read_other :
    (user : Text) (now : ℕ) (other : Text) (events : List Event) (l : PredictiveLoop)
    → is_too_soon now l.rescore_rate_limit_ms (JsMap.get other l.last_rescore_time) ≡ false
    → text_key.beq other user ≡ false
    → read_times user (turns now other ∷ events) l ≡ read_times user events (mark now other l)
unfolding read_times
read_other user now other events l n differs =
    ap (from_turn user now other events) (granted now other l n)
    ∙ ap (λ b. (if b && true then now ∷ [] else []) ++ read_times user events (mark now other l))
        differs

read_self :
    (user : Text) (now : ℕ) (events : List Event) (l : PredictiveLoop)
    → is_too_soon now l.rescore_rate_limit_ms (JsMap.get user l.last_rescore_time) ≡ false
    → read_times user (turns now user ∷ events) l ≡ now ∷ read_times user events (mark now user l)
unfolding read_times
read_self user now events l n =
    ap (from_turn user now user events) (granted now user l n)
    ∙ ap (λ b. (if b && true then now ∷ [] else []) ++ read_times user events (mark now user l))
        (beq_self user)

-- The time of the last turn of a user.
abbrev IsLast : Text → ℕ → PredictiveLoop → Type 0
IsLast user last l = JsMap.get user l.last_rescore_time ≡ some last

mark-IsLast : (now : ℕ) (user : Text) (l : PredictiveLoop) → IsLast user now (mark now user l)
mark-IsLast now user l =
    get-set user user now l.last_rescore_time
    ∙ ap (λ b. if b then some now else JsMap.get user l.last_rescore_time) (beq_self user)

mark-IsLast_other :
    (now : ℕ) (other user : Text) (last : ℕ) (l : PredictiveLoop)
    → text_key.beq other user ≡ false
    → IsLast user last l
    → IsLast user last (mark now other l)
mark-IsLast_other now other user last l differs h =
    get-set other user now l.last_rescore_time
    ∙ ap (λ b. if b then some now else JsMap.get user l.last_rescore_time) differs
    ∙ h

-- A turn is not refused: the limit has passed since the last one.
passed :
    (now limit last : ℕ)
    → 0 < limit
    → 0 < last
    → is_too_soon now limit (some last) ≡ false
    → last + limit ≤ now
passed now limit last limited pos n = ground arith

All-later :
    (a b gap : ℕ) (ts : List ℕ)
    → a + gap ≤ b
    → All (λ s. b + gap ≤ s) ts
    → All (λ s. a + gap ≤ s) ts
All-later a b gap [] le h = tt
All-later a b gap (t ∷ ts) le (x, h) = (omega (arith, le, x), All-later a b gap ts le h)

-- After a turn of the user, the reads that follow keep the distance from it.
reads_after :
    (user : Text) (limit last : ℕ) (events : List Event) (l : PredictiveLoop)
    → 0 < limit
    → 0 < last
    → l.rescore_rate_limit_ms ≡ limit
    → All IsTimed events
    → IsLast user last l
    → All (λ s. last + limit ≤ s) (read_times user events l)
unfolding read_times
reads_after user limit last [] l limited pos same all h = tt
reads_after user limit last (begins update ∷ events) l limited pos same (timed, all) h =
    let s = affected_users-Same update l in
    reads_after user limit last events (affected_users update l).0 limited pos (s.limit ∙ same) all
      (ap (JsMap.get user) s.times ∙ h)
reads_after user limit last (rescores w other ∷ events) l limited pos same (timed, all) h =
    let s = (rescore_user-Same w other l).0 in
    reads_after user limit last events (rescore_user w other l).0 limited pos (s.limit ∙ same) all
      (ap (JsMap.get user) s.times ∙ h)
reads_after user limit last (turns now other ∷ events) l limited pos same (timed, all) h =
    elim (Bool-cases
      (is_too_soon now l.rescore_rate_limit_ms (JsMap.get other l.last_rescore_time))) [
        | inl y ↦
            rw (read_refused user now other events l y)
              (reads_after user limit last events l limited pos same all h)
        | inr n ↦ elim (Bool-cases (text_key.beq other user)) [
          | inr differs ↦ rw (read_other user now other events l n differs) (
              reads_after user limit last events (mark now other l) limited pos same all
                (mark-IsLast_other now other user last l differs h))
          | inl e ↦
              let here : other ≡ user = (text_key.beq_iff other user).0 e in
              let n' : is_too_soon now l.rescore_rate_limit_ms (JsMap.get user l.last_rescore_time)
                  ≡ false =
                ap (λ k. is_too_soon now l.rescore_rate_limit_ms (JsMap.get k l.last_rescore_time))
                  (sym here)
                ∙ n in
              let le : last + limit ≤ now = passed now limit last limited pos (
                ap (λ m. is_too_soon now m (some last)) (sym same)
                ∙ ap (is_too_soon now l.rescore_rate_limit_ms) (sym h)
                ∙ n') in
              let later =
                reads_after user limit now events (mark now user l) limited timed same all
                  (mark-IsLast now user l) in
              rw
                (ap (λ k. read_times user (turns now k ∷ events) l) here
                  ∙ read_self user now events l n')
                (le, All-later last now limit (read_times user events (mark now user l)) le later)
        ]
      ]

reads-Spaced :
    (user : Text) (limit : ℕ) (events : List Event) (l : PredictiveLoop)
    → 0 < limit
    → l.rescore_rate_limit_ms ≡ limit
    → All IsTimed events
    → Spaced limit (read_times user events l)
unfolding read_times
reads-Spaced user limit [] l limited same all = tt
reads-Spaced user limit (begins update ∷ events) l limited same (timed, all) =
    let s = affected_users-Same update l in
    reads-Spaced user limit events (affected_users update l).0 limited (s.limit ∙ same) all
reads-Spaced user limit (rescores w other ∷ events) l limited same (timed, all) =
    let s = (rescore_user-Same w other l).0 in
    reads-Spaced user limit events (rescore_user w other l).0 limited (s.limit ∙ same) all
reads-Spaced user limit (turns now other ∷ events) l limited same (timed, all) =
    elim (Bool-cases
      (is_too_soon now l.rescore_rate_limit_ms (JsMap.get other l.last_rescore_time))) [
        | inl y ↦
            rw (read_refused user now other events l y)
              (reads-Spaced user limit events l limited same all)
        | inr n ↦
            let rest = reads-Spaced user limit events (mark now other l) limited same all in
            elim (Bool-cases (text_key.beq other user)) [
              | inr differs ↦ rw (read_other user now other events l n differs) rest
              | inl e ↦
                  let here : other ≡ user = (text_key.beq_iff other user).0 e in
                  let n' : is_too_soon now l.rescore_rate_limit_ms
                        (JsMap.get user l.last_rescore_time)
                      ≡ false =
                    ap
                      (λ k.
                        is_too_soon now l.rescore_rate_limit_ms (JsMap.get k l.last_rescore_time))
                      (sym here)
                    ∙ n in
                  let next = mark now user l in
                  rw
                    (ap (λ k. read_times user (turns now k ∷ events) l) here
                      ∙ read_self user now events l n')
                    (
                      reads_after user limit now events next limited timed same all
                          (mark-IsLast now user l),
                      reads-Spaced user limit events next limited same all,
                    )
            ]
      ]

-- Whatever calls overlap and in whatever order they take their turns, and also when their times do
-- not rise in this order: of the calls that read the health factor of a user, each read the clock
-- before its loop at least a rate limit after every call that took its turn earlier, if the limit is
-- not 0 and no time is. The distance is between these times of the calls, not between the reads
-- themselves, which may be late in a long loop.
pub read_times-Spaced :
    (user : Text) (events : List Event) (l : PredictiveLoop)
    → 0 < l.rescore_rate_limit_ms
    → All IsTimed events
    → Spaced l.rescore_rate_limit_ms (read_times user events l)
read_times-Spaced user events l limited all =
    reads-Spaced user l.rescore_rate_limit_ms events l limited refl all
