-- ===== src/PriorityQueues/Invariant.antt =====
-- What holds of a queue after any calls.
use liquid_bot.Prelude.{ℕ, ◌≤◌, ◌≡◌, refl, true, [], ◌∷◌, All, max}
use liquid_bot.Prelude.Text.{Text, text_key, to_lower_case, truthy, truthy-to_lower_case}
use liquid_bot.JsMap
use liquid_bot.JsMap.{JsMap, Distinct}
use liquid_bot.JsMap.Evict.{higher, ltb_irrefl, higher_trans, higher_chain}
use liquid_bot.JsMap.Bounded.{bounded_set}
use liquid_bot.JsMap.Bounded.Laws.{
  bounded_set-Distinct, bounded_set-All, bounded_set-size, AllTruthy,
}
use liquid_bot.PriorityQueues.{
  QueueEntry, PriorityQueueConfig, Band, hot, warm, PriorityQueue, qualifies, max_size, stored,
}

-- An entry that stands where it belongs.
pub record IsPlaced (band : Band) (c : PriorityQueueConfig) (entry : Text × QueueEntry)
    : Type 0 where
  pub own_key : entry.0 ≡ entry.1.user
  pub named : truthy entry.0 ≡ true
  pub qualified : qualifies band c entry.1 ≡ true
  pub large : c.min_liq_exec_usd ≤ entry.1.total_debt_usd

pub record IsValid (band : Band) (q : PriorityQueue) : Type 0 where
  pub distinct : Distinct q.queue
  pub bounded : JsMap.size q.queue ≤ max (max_size band q.config) 1
  pub placed : All (IsPlaced band q.config) q.queue

pub IsValid-AllTruthy :
    (band : Band) (c : PriorityQueueConfig) (m : JsMap Text QueueEntry)
    → All (IsPlaced band c) m
    → AllTruthy higher (λ (e : QueueEntry). e.priority) truthy m
IsValid-AllTruthy band c [] h = tt
IsValid-AllTruthy band c (x ∷ m) h = (h.0.named, IsValid-AllTruthy band c m h.1)

qualifies-stored :
    (band : Band) (c : PriorityQueueConfig) (now : ℕ) (entry : QueueEntry)
    → qualifies band c (stored now entry) ≡ qualifies band c entry
unfolding qualifies
qualifies-stored hot c now entry = refl
qualifies-stored warm c now entry = refl

pub insert-IsValid :
    (band : Band) (now : ℕ) (entry : QueueEntry) (q : PriorityQueue)
    → truthy entry.user ≡ true
    → qualifies band q.config entry ≡ true
    → q.config.min_liq_exec_usd ≤ entry.total_debt_usd
    → IsValid band q
    → IsValid band (record q {
      queue =
          bounded_set higher
            (λ e. e.priority)
            truthy
            (max_size band q.config)
            (to_lower_case entry.user)
            (stored now entry)
            q.queue;
    })
insert-IsValid band now entry q name ok large v = record {
  distinct = bounded_set-Distinct higher _ truthy _ _ _ q.queue v.distinct;
  bounded =
      bounded_set-size higher (λ (e : QueueEntry). e.priority) truthy ltb_irrefl higher_trans
        higher_chain _ _ _ q.queue v.distinct (IsValid-AllTruthy band q.config q.queue v.placed)
        v.bounded;
  placed =
      bounded_set-All higher _ truthy (IsPlaced band q.config) _ _ _ q.queue
        (record {
          own_key = refl;
          named = truthy-to_lower_case entry.user name;
          qualified = rw qualifies-stored ok;
          large = large;
        })
        v.placed;
}
