-- ===== src/DirtyQueue/Order.antt =====
-- First marked, first taken; and the counters.
use mathlib.Core.List.{append_assoc, append-nil}
use liquid_bot.Prelude.{
  ℕ, zero, suc, ap, sym, ◌+◌, ◌≡◌, refl, ◌∙◌, false, List, [], ◌∷◌, ◌++◌, arith, length, take, drop,
  if◌then◌else◌, Bool-cases, inl, inr, beq_self, take-append-drop,
}
use liquid_bot.Prelude.Text.{Text, text_key, to_lower_case}
use liquid_bot.JsMap
use liquid_bot.JsMap.{JsSet, keys, add, Distinct}
use liquid_bot.JsMap.Laws.{delete_absent, Distinct-set, size-set}
use liquid_bot.DirtyQueue.{DirtyQueue, mark_dirty, take_loop, take_batch, size}

keys-add : (k : Text) (s : JsSet Text) → JsMap.has k s ≡ false → keys (add k s) ≡ keys s ++ (k ∷ [])
unfolding JsMap.has JsMap.set
keys-add k [] h = refl
keys-add k ((j, x) ∷ s) h = elim (Bool-cases (text_key.beq j k)) [
  | inl y ↦ absurd (ground arith)
  | inr n ↦ rw (n, if◌then◌else◌) (ap (λ ks. j ∷ ks) (keys-add k s (ground arith)))
]

delete-first :
    (k : Text) (s : JsSet Text) → Distinct ((k, tt) ∷ s) → JsMap.delete k ((k, tt) ∷ s) ≡ s
unfolding JsMap.delete
delete-first k s d = rw (beq_self k, if◌then◌else◌) (delete_absent k s d.0)

take_loop_lem :
    (n : ℕ) (s : JsSet Text) → Distinct s → take_loop n (keys s) s ≡ (take n (keys s), drop n s)
unfolding take_loop
take_loop_lem zero s d = refl
take_loop_lem (suc n) [] d = refl
take_loop_lem (suc n) ((k, tt) ∷ s) d = rw (delete-first k s d) (rw (take_loop_lem n s d.1) refl)

keys-drop : (n : ℕ) (s : JsSet Text) → keys (drop n s) ≡ drop n (keys s)
keys-drop zero s = refl
keys-drop (suc n) [] = refl
keys-drop (suc n) (x ∷ s) = keys-drop n s

Distinct-drop : (n : ℕ) (s : JsSet Text) → Distinct s → Distinct (drop n s)
Distinct-drop zero s d = d
Distinct-drop (suc n) [] d = d
Distinct-drop (suc n) (x ∷ s) d = Distinct-drop n s d.1

-- What a batch has and what it leaves.
abbrev pub Takes : ℕ → DirtyQueue → DirtyQueue × List Text → Type 0
Takes limit q r =
    (r.1 ≡ take limit (keys q.queue))
    × (r.0.queue ≡ drop limit q.queue)
    × (r.0.total_marked ≡ q.total_marked)
    × (r.0.total_processed ≡ q.total_processed + length r.1)

-- A batch has the users at the front of the queue, up to its limit and in order, and leaves the
-- others, if no user waits twice; it counts them as processed.
pub take_batch-Takes :
    (limit : ℕ) (q : DirtyQueue) → Distinct q.queue → Takes limit q (take_batch limit q)
unfolding take_batch
take_batch-Takes limit q d = rw (take_loop_lem limit q.queue d) (refl, refl, refl, refl)

pub data Call : Type 0 where
  marks : Text → Call
  takes : ℕ → Call

-- What is seen from outside: the users taken, in order, and the marks of users that did not wait
-- already.
pub record Run : Type 0 where
  pub taken : List Text
  pub accepted : List Text
  pub final : DirtyQueue

unfoldable pub newly : Text → DirtyQueue → List Text
newly address q =
    if JsMap.has (to_lower_case address) q.queue then [] else to_lower_case address ∷ []

unfoldable pub run : List Call → DirtyQueue → Run
unfolding newly
run [] q = record { taken = []; accepted = []; final = q }
run (marks address ∷ calls) q =
    let rest = run calls (mark_dirty address q) in
    record rest { accepted = newly address q ++ rest.accepted }
run (takes limit ∷ calls) q =
    let rest = run calls (take_batch limit q).0 in
    record rest { taken = (take_batch limit q).1 ++ rest.taken }

-- No user waits twice, and every accepted mark is waiting or processed.
pub record IsValid (q : DirtyQueue) : Type 0 where
  pub distinct : Distinct q.queue
  pub balanced : q.total_marked ≡ size q + q.total_processed

abbrev Marks : Text → DirtyQueue → DirtyQueue → Type 0
Marks address q r = (keys r.queue ≡ keys q.queue ++ newly address q) × IsValid r

mark_dirty-Marks :
    (address : Text) (q : DirtyQueue) → IsValid q → Marks address q (mark_dirty address q)
unfolding mark_dirty newly size
mark_dirty-Marks address q v = elim (Bool-cases (JsMap.has (to_lower_case address) q.queue)) [
  | inl y ↦ rw (y, if◌then◌else◌) (sym (append-nil (keys q.queue)), v)
  | inr n ↦
      rw (n, if◌then◌else◌)
        (
          keys-add (to_lower_case address) q.queue n,
          record {
            distinct = Distinct-set (to_lower_case address) tt q.queue v.distinct;
            balanced = ground (arith, v.balanced, size-set (to_lower_case address) tt q.queue);
          },
        )
]

length-take-drop :
    (n : ℕ) (s : JsSet Text) → length (take n (keys s)) + JsMap.size (drop n s) ≡ JsMap.size s
length-take-drop zero s = omega arith
length-take-drop (suc n) [] = omega arith
length-take-drop (suc n) (x ∷ s) = omega (arith, length-take-drop n s)

take_batch-IsValid : (limit : ℕ) (q : DirtyQueue) → IsValid q → IsValid (take_batch limit q).0
unfolding take_batch size
take_batch-IsValid limit q v = rw (take_loop_lem limit q.queue v.distinct) (record {
  distinct = Distinct-drop limit q.queue v.distinct;
  balanced = omega (arith, v.balanced, length-take-drop limit q.queue);
})

-- From a valid queue, whatever the calls, the users taken and then those who still wait are the
-- ones who waited at first and then the accepted marks, in the same order; and the queue is valid
-- again: nobody waits twice, and the counters add up.
pub run-fifo :
    (calls : List Call) (q : DirtyQueue)
    → IsValid q
    → (keys q.queue ++ (run calls q).accepted
        ≡ (run calls q).taken ++ keys (run calls q).final.queue)
      × IsValid (run calls q).final
unfolding run
run-fifo [] q v = (append-nil (keys q.queue), v)
run-fifo (marks address ∷ calls) q v =
    let m = mark_dirty-Marks address q v in
    let ih = run-fifo calls (mark_dirty address q) m.1 in
    (
      sym (append_assoc (keys q.queue) (newly address q) _)
          ∙ ap (λ ks. ks ++ (run calls (mark_dirty address q)).accepted) (sym m.0)
          ∙ ih.0,
      ih.1,
    )
run-fifo (takes limit ∷ calls) q v =
    let t = take_batch-Takes limit q v.distinct in
    let ih = run-fifo calls (take_batch limit q).0 (take_batch-IsValid limit q v) in
    let after = run calls (take_batch limit q).0 in
    (
      ap (λ ks. ks ++ after.accepted) (sym (take-append-drop limit (keys q.queue)))
          ∙ append_assoc (take limit (keys q.queue)) (drop limit (keys q.queue)) after.accepted
          ∙ ap (λ ks. take limit (keys q.queue) ++ ks)
              (ap (λ ks. ks ++ after.accepted) (sym (keys-drop limit q.queue) ∙ ap keys (sym t.1))
                ∙ ih.0)
          ∙ sym (append_assoc (take limit (keys q.queue)) after.taken (keys after.final.queue))
          ∙ ap (λ ks. (ks ++ after.taken) ++ keys after.final.queue) (sym t.0),
      ih.1,
    )
