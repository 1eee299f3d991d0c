-- ===== src/ThreadPool/Order.antt =====
-- Tasks leave the queue in the order in which they came, and the queue keeps its bound.
use mathlib.Core.List.{append_assoc}
use mathlib.Core.Path.{subst}
use muzi.Prelude.{
  ℕ, ◌<◌, ◌≤◌, ◌≡◌, refl, sym, ap, ◌∙◌, Bool, true, false, not, ◌&&◌, List, [], ◌∷◌, ◌++◌, Option,
  none, some, arith, length, ltb, ◌==◌, if◌then◌else◌, Bool-cases, inl, inr, ℤ, pos,
}
use muzi.ThreadPool.{
  ThreadPool, init, guard, is_full, start, test_running, take_task, first_take, woken_take,
  notify_full, end_task, call_run, push_task, first_push, unblocked_push, notify_empty, stop,
  stop_empty, stop_full, stop_join, same_stopper, notifying_empty, notifying_full, joining,
}
use muzi.ThreadPool.Run.{
  Action, start_with, test, take, retake, notify_one_full, end, spurious, call, notify_one_empty,
  push, repush, call_stop, all_empty, all_full, join, step, Run, Run-keeps,
}
use muzi.ThreadPool.Queue.{within, Run-sound_at}

module _ (z : ℤ) where
  abbrev Fifo : ThreadPool → Type 0
  Fifo p = (p.pushed ≡ p.taken ++ p.queue) × (p.max_queue_size ≡ z)

  abbrev FifoAfter : Option ThreadPool → Type 0
  FifoAfter none = Unit
  FifoAfter (some p) = Fifo p

  guard-Fifo : (b : Bool) (p : ThreadPool) → Fifo p → FifoAfter (guard b p)
  guard-Fifo true p h = h
  guard-Fifo false p h = tt

  guarded-Fifo :
      (b c : Bool) (p q : ThreadPool) → Fifo p → Fifo q → FifoAfter (guard b (if c then p else q))
  guarded-Fifo true true p q h k = h
  guarded-Fifo true false p q h k = k
  guarded-Fifo false c p q h k = tt

  take_task-Fifo : (ts : List ℕ) (p : ThreadPool) → p.queue ≡ ts → Fifo p → Fifo (take_task ts p)
  unfolding take_task
  take_task-Fifo [] p e h = h
  take_task-Fifo (t ∷ ts) p e (o, b) =
      (o ∙ ap (λ l. p.taken ++ l) e ∙ sym (append_assoc p.taken (t ∷ []) ts), b)

  push_task-Fifo : (t : ℕ) (p : ThreadPool) → Fifo p → Fifo (push_task t p)
  unfolding push_task
  push_task-Fifo t p (o, b) = elim (Bool-cases (is_full p)) [
    | inl full ↦ rw full (o, b)
    | inr room ↦ rw room (ap (λ l. l ++ t ∷ []) o ∙ append_assoc p.taken p.queue (t ∷ []), b)
  ]

  step-Fifo : (a : Action) (p : ThreadPool) → Fifo p → FifoAfter (step a p)
  unfolding step start test_running first_take woken_take notify_full end_task call_run first_push
      unblocked_push notify_empty stop stop_empty stop_full stop_join
  step-Fifo (start_with n) p h = guard-Fifo (not p.running && (p.threads == 0)) _ h
  step-Fifo test p h = guarded-Fifo (ltb 0 p.testing) p.running _ _ h h
  step-Fifo take p h = guard-Fifo (ltb 0 p.locking) _ (take_task-Fifo p.queue _ refl h)
  step-Fifo retake p h =
      guarded-Fifo (ltb 0 p.woken) p.running _ _ (take_task-Fifo p.queue _ refl h) h
  step-Fifo notify_one_full p h = guarded-Fifo (ltb 0 p.freeing) (ltb 0 p.blocked) _ _ h h
  step-Fifo end p h = guard-Fifo (ltb 0 p.busy) _ h
  step-Fifo spurious p h = guard-Fifo (ltb 0 p.asleep) _ h
  step-Fifo call p h = guarded-Fifo true p.running _ _ h h
  step-Fifo notify_one_empty p h = guarded-Fifo (ltb 0 p.notifying) (ltb 0 p.asleep) _ _ h h
  step-Fifo (push t) p h = guard-Fifo (ltb 0 p.pushing) _ (push_task-Fifo t _ h)
  step-Fifo (repush t) p h = guarded-Fifo (ltb 0 p.unblocked) p.running _ _ (push_task-Fifo t _ h) h
  step-Fifo call_stop p h = guarded-Fifo true p.running _ _ h h
  step-Fifo all_empty p h = guard-Fifo (same_stopper p.stopper notifying_empty) _ h
  step-Fifo all_full p h = guard-Fifo (same_stopper p.stopper notifying_full) _ h
  step-Fifo join p h = guard-Fifo (same_stopper p.stopper joining && (p.exited == p.threads)) _ h

  Run-Fifo : {acts : List Action} {p : ThreadPool} → Run (init z) acts p → Fifo p
  unfolding init
  Run-Fifo r = Run-keeps Fifo (λ a p p₁ e h. subst FifoAfter e (step-Fifo a p h)) r (refl, refl)

-- However the threads take turns, a queue with a positive bound stays within it, and the tasks that
-- were taken from it and those that are left are, in this order, the ones pushed: each is taken
-- once, in its turn.
pub length-within :
    (m : ℕ) {acts : List Action} {p : ThreadPool}
    → 0 < m
    → Run (init (pos m)) acts p
    → (length p.queue ≤ m) × (p.pushed ≡ p.taken ++ p.queue)
length-within m {p = p} h r =
    let w : within p.max_queue_size (length p.queue) ≡ true = ground (arith, Run-sound_at _ r) in
    let (o, e) = Run-Fifo (pos m) r in
    let v : within (pos m) (length p.queue) ≡ true =
      subst (λ z. within z (length p.queue) ≡ true) e w in
    (ground arith, o)
