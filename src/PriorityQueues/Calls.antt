-- ===== src/PriorityQueues/Calls.antt =====
-- The results of the calls, and all histories of calls.
use mathlib.Core.List.{Perm}
use liquid_bot.Prelude.{
  ℕ, ◌≤◌, ◌≡◌, refl, sym, ◌⊎◌, inl, inr, Bool, true, false, ◌&&◌, some, List, [], ◌∷◌, arith, All,
  ltb, leb, if◌then◌else◌, Bool-cases,
}
use liquid_bot.Prelude.Sort.{IsSorted, sort-perm, sort-IsSorted}
use liquid_bot.Prelude.Text.{Text, text_key, to_lower_case, truthy}
use liquid_bot.JsMap
use liquid_bot.JsMap.{JsMap, Distinct, values}
use liquid_bot.JsMap.Laws.{Distinct-delete, size-delete-le}
use liquid_bot.JsMap.Entries.{All-delete}
use liquid_bot.JsMap.Evict.{higher, ltb_irrefl, higher_trans, higher_chain}
use liquid_bot.JsMap.Bounded.{bounded_set}
use liquid_bot.JsMap.Bounded.Laws.{get-bounded_set_self, get-bounded_set_ne, IsExtreme}
use liquid_bot.PriorityQueues.{
  QueueEntry, PriorityQueueConfig, Band, hot, warm, PriorityQueue, qualifies, max_size, stored,
  upsert, remove, get_all, get, clear,
}
use liquid_bot.PriorityQueues.Invariant.{IsPlaced, IsValid, IsValid-AllTruthy, insert-IsValid}

-- The queue with the entry in it.
abbrev inserted : Band → ℕ → QueueEntry → PriorityQueue → PriorityQueue
inserted band now entry q = record q {
  queue =
      bounded_set higher (λ e. e.priority) truthy (max_size band q.config)
        (to_lower_case entry.user) (stored now entry) q.queue;
}

upsert_cases {ℓ} :
    (P : PriorityQueue × Bool → Type ℓ) (band : Band) (now : ℕ) (entry : QueueEntry)
    (q : PriorityQueue)
    → ((qualifies band q.config entry && leb q.config.min_liq_exec_usd entry.total_debt_usd) ≡ false
        → P (q, false))
    → (qualifies band q.config entry ≡ true
        → q.config.min_liq_exec_usd ≤ entry.total_debt_usd
        → P (inserted band now entry q, true))
    → P (upsert band now entry q)
unfolding upsert
upsert_cases P band now entry q refused taken = elim (Bool-cases (qualifies band q.config entry)) [
  | inr f ↦ rw (f, upsert) (refused (rw f))
  | inl t ↦ elim (Bool-cases (ltb entry.total_debt_usd q.config.min_liq_exec_usd)) [
    | inl small ↦ rw (t, upsert) (rw (small, if◌then◌else◌) (refused (ground arith)))
    | inr large ↦ rw (t, upsert) (rw (large, if◌then◌else◌) (taken t (ground arith)))
  ]
]

-- What `upsert` promises of its result.
abbrev pub Accepts : Band → ℕ → QueueEntry → PriorityQueue → PriorityQueue × Bool → Type 0
Accepts band now entry q r =
    (r.1 ≡ (qualifies band q.config entry && leb q.config.min_liq_exec_usd entry.total_debt_usd))
    × (r.1 ≡ true → get entry.user r.0 ≡ some (stored now entry))
    × (r.1 ≡ false → r.0 ≡ q)

-- `upsert` takes an entry exactly if it qualifies for the band and its debt reaches the minimum.
-- Then a read of the user, in whatever case, finds it; otherwise nothing changes.
pub upsert-Accepts :
    (band : Band) (now : ℕ) (entry : QueueEntry) (q : PriorityQueue)
    → Accepts band now entry q (upsert band now entry q)
unfolding get
upsert-Accepts band now entry q =
    upsert_cases (Accepts band now entry q) band now entry q
      (λ refused. (sym refused, (λ t. absurd (ground arith)), (λ _. refl)))
      (λ ok large. (
        ground arith,
        (λ _. get-bounded_set_self higher _ truthy _ _ _ q.queue),
        (λ f. absurd (ground arith)),
      ))

-- What happens to another user's entry.
abbrev pub Keeps : Band → QueueEntry → PriorityQueue → Text → PriorityQueue × Bool → Type 0
Keeps band entry q other r =
    (get other r.0 ≡ get other q)
    ⊎ ((max_size band q.config ≤ JsMap.size q.queue)
        × (JsMap.has (to_lower_case entry.user) q.queue ≡ false)
        × IsExtreme higher (λ (e : QueueEntry). e.priority) truthy (to_lower_case other) q.queue)

-- In a valid queue the other users' entries stay, but for one: a new user in a full queue displaces an entry with
-- the greatest priority number.
pub upsert-Keeps :
    (band : Band) (now : ℕ) (entry : QueueEntry) (q : PriorityQueue) (other : Text)
    → IsValid band q
    → text_key.beq (to_lower_case entry.user) (to_lower_case other) ≡ false
    → Keeps band entry q other (upsert band now entry q)
unfolding get
upsert-Keeps band now entry q other v ne =
    upsert_cases (Keeps band entry q other) band now entry q (λ _. inl refl)
      (λ _ _.
        get-bounded_set_ne higher _ truthy ltb_irrefl higher_trans higher_chain _ _ _ _ q.queue
          v.distinct (IsValid-AllTruthy band q.config q.queue v.placed) ne)

-- All entries, the lowest priority number first.
pub get_all-IsSorted :
    (q : PriorityQueue)
    → IsSorted (λ a b. ltb b.priority a.priority) (get_all q) × Perm (get_all q) (values q.queue)
unfolding get_all
get_all-IsSorted q = (
  sort-IsSorted _ (λ a b h. ground arith) (λ a b c h g. ground arith) (values q.queue),
  sort-perm _ (values q.queue),
)

-- Without projections no entry qualifies for both bands.
pub hot-warm_disjoint :
    (c : PriorityQueueConfig) (entry : QueueEntry)
    → c.pre_sim.enabled ≡ false
    → qualifies hot c entry ≡ true
    → qualifies warm c entry ≡ false
unfolding qualifies
hot-warm_disjoint c entry off h = ground arith

pub data Call : Type 0 where
  upserts : ℕ → QueueEntry → Call
  removes : Text → Call
  clears : Call

unfoldable pub step : Band → Call → PriorityQueue → PriorityQueue
step band (upserts now entry) q = (upsert band now entry q).0
step band (removes user) q = (remove user q).0
step band clears q = clear q

unfoldable pub run : Band → List Call → PriorityQueue → PriorityQueue
run band [] q = q
run band (call ∷ calls) q = run band calls (step band call q)

-- Users are not the empty string.
abbrev pub IsNamed : Call → Type 0
IsNamed (upserts now entry) = truthy entry.user ≡ true
IsNamed (removes user) = Unit
IsNamed clears = Unit

upsert-IsValid :
    (band : Band) (now : ℕ) (entry : QueueEntry) (q : PriorityQueue)
    → truthy entry.user ≡ true
    → IsValid band q
    → IsValid band (upsert band now entry q).0
upsert-IsValid band now entry q name v =
    upsert_cases (λ r. IsValid band r.0) band now entry q (λ _. v)
      (λ ok large. insert-IsValid band now entry q name ok large v)

step-IsValid :
    (band : Band) (call : Call) (q : PriorityQueue)
    → IsNamed call
    → IsValid band q
    → IsValid band (step band call q)
unfolding step remove clear
step-IsValid band (upserts now entry) q name v = upsert-IsValid band now entry q name v
step-IsValid band (removes user) q name v = record {
  distinct = Distinct-delete _ q.queue v.distinct;
  bounded = omega (arith, size-delete-le (to_lower_case user) q.queue, v.bounded);
  placed = All-delete (IsPlaced band q.config) _ q.queue v.placed;
}
step-IsValid band clears q name v = record { distinct = tt; bounded = omega arith; placed = tt }

-- From a valid queue, after any calls for users that are not the empty string, no user is in the
-- queue twice, the size limit is kept (a limit of 0
-- lets one entry in), and every entry qualifies, has the minimum debt and stands under its own user.
pub run-IsValid :
    (band : Band) (calls : List Call) (q : PriorityQueue)
    → All IsNamed calls
    → IsValid band q
    → IsValid band (run band calls q)
unfolding run
run-IsValid band [] q named v = v
run-IsValid band (call ∷ calls) q named v =
    run-IsValid band calls (step band call q) named.1 (step-IsValid band call q named.0 v)
