-- ===== src/AttemptHistory.antt =====
-- backend-v2/src/execution/attemptHistory.ts: the last attempts on each user.
pub mod Log
use liquid_bot.Prelude.{
  ℕ, suc, Bool, true, false, Option, none, some, List, [], ◌∷◌, ◌++◌, length, ltb, if◌then◌else◌,
}
use liquid_bot.Prelude.Text.{Text, text_key, to_lower_case}
use liquid_bot.JsMap
use liquid_bot.JsMap.{JsMap}

pub data AttemptStatus : Type 0 where
  sent reverted included error skip_no_pair pending failed : AttemptStatus

pub record AttemptRecord : Type 0 where
  pub user : Text
  pub timestamp : ℕ
  pub status : AttemptStatus
  pub tx_hash : Option Text
  pub nonce : Option ℕ
  pub error_text : Option Text
  pub debt_asset : Option Text
  pub collateral_asset : Option Text
  pub debt_to_cover : Option Text

abbrev pub AttemptHistory : Type 0
AttemptHistory = JsMap Text (List AttemptRecord)

abbrev pub max_entries_per_user : ℕ
max_entries_per_user = 10

-- `xs.shift()`
abbrev pub shift {ℓ} : {A : Type ℓ} → List A → List A
shift [] = []
shift (x ∷ xs) = xs

-- `xs[xs.length - 1]`
unfoldable pub last {ℓ} : {A : Type ℓ} → List A → Option A
last [] = none
last (x ∷ []) = some x
last (x ∷ y ∷ xs) = last (y ∷ xs)

-- `entries || []`
abbrev pub or_empty : Option (List AttemptRecord) → List AttemptRecord
or_empty none = []
or_empty (some entries) = entries

-- `this.history.get(user) || []`
unfoldable pub history_or_empty : Text → AttemptHistory → List AttemptRecord
history_or_empty normalized h = or_empty (JsMap.get normalized h)

-- The entries of a user with one more, and the last ten of them.
unfoldable pub push : AttemptRecord → List AttemptRecord → List AttemptRecord
push attempt entries =
    let pushed = entries ++ (attempt ∷ []) in
    if ltb max_entries_per_user (length pushed) then shift pushed else pushed

-- `record`
unfoldable pub record_attempt : AttemptRecord → AttemptHistory → AttemptHistory
unfolding history_or_empty push
record_attempt attempt h =
    let normalized = to_lower_case attempt.user in
    JsMap.set normalized (push attempt (history_or_empty normalized h)) h

unfoldable pub get_history : Text → AttemptHistory → List AttemptRecord
unfolding history_or_empty
get_history user h = history_or_empty (to_lower_case user) h

unfoldable pub get_last_attempt : Text → AttemptHistory → Option AttemptRecord
unfolding get_history last
get_last_attempt user h = last (get_history user h)

unfoldable pub clear : Text → AttemptHistory → AttemptHistory
clear user h = JsMap.delete (to_lower_case user) h

abbrev pub is_pending : AttemptStatus → Bool
is_pending pending = true
is_pending sent = false
is_pending reverted = false
is_pending included = false
is_pending error = false
is_pending skip_no_pair = false
is_pending failed = false

unfoldable pub pending_attempt : Option AttemptRecord → Option AttemptRecord
pending_attempt none = none
pending_attempt (some attempt) = if is_pending attempt.status then some attempt else none

abbrev pub is_pending_attempt : Option AttemptRecord → Bool
is_pending_attempt none = false
is_pending_attempt (some attempt) = is_pending attempt.status

unfoldable pub has_pending : Text → AttemptHistory → Bool
unfolding get_last_attempt
has_pending user h = is_pending_attempt (get_last_attempt user h)

unfoldable pub get_pending_attempt : Text → AttemptHistory → Option AttemptRecord
unfolding get_last_attempt pending_attempt
get_pending_attempt user h = pending_attempt (get_last_attempt user h)
