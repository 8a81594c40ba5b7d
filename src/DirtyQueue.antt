-- ===== src/DirtyQueue.antt =====
-- backend-v2/src/realtime/dirtyQueue.ts: the users that wait for a check, in the order of marking.
pub mod Order
use liquid_bot.Prelude.{ℕ, zero, suc, ◌+◌, Bool, true, false, List, [], ◌∷◌, length, if◌then◌else◌}
use liquid_bot.Prelude.Text.{Text, text_key, to_lower_case}
use liquid_bot.JsMap
use liquid_bot.JsMap.{JsSet, keys, add}

pub record DirtyQueue : Type 0 where
  pub queue : JsSet Text
  pub total_marked : ℕ
  pub total_processed : ℕ

unfoldable pub mark_dirty : Text → DirtyQueue → DirtyQueue
mark_dirty address q =
    let normalized = to_lower_case address in
    if JsMap.has normalized q.queue
    then q
    else record q { queue = add normalized q.queue; total_marked = q.total_marked + 1 }

-- The loop. The iterator stands before the entries that it has not visited, and the deletions take
-- only visited ones.
unfoldable pub take_loop : ℕ → List Text → JsSet Text → List Text × JsSet Text
take_loop zero iter queue = ([], queue)
take_loop (suc n) [] queue = ([], queue)
take_loop (suc n) (next ∷ iter) queue =
    let (batch, rest) = take_loop n iter (JsMap.delete next queue) in (next ∷ batch, rest)

unfoldable pub take_batch : ℕ → DirtyQueue → DirtyQueue × List Text
unfolding take_loop
take_batch limit q =
    let (batch, rest) = take_loop limit (keys q.queue) q.queue in
    (record q { queue = rest; total_processed = q.total_processed + length batch }, batch)

unfoldable pub size : DirtyQueue → ℕ
size q = JsMap.size q.queue

unfoldable pub clear : DirtyQueue → DirtyQueue
clear q = record q { queue = [] }
