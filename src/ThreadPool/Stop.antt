-- ===== src/ThreadPool/Stop.antt =====
-- Stop() may wait for ever for a worker that goes to sleep behind its notification.
use mathlib.Core.Path.{subst}
use muzi.Prelude.{
  ℕ, ◌-◌, ◌<◌, ◌≡◌, sym, Bool, true, false, not, ◌&&◌, ◌||◌, List, [], ◌∷◌, Option, none, some,
  arith, ltb, ◌==◌, ℤ,
}
use muzi.ThreadPool.{
  ThreadPool, notifying_full, joining, done, same_stopper, init, guard, start, test_running,
  take_task, first_take, woken_take, notify_full, end_task, call_run, first_push, unblocked_push,
  notify_empty, stop, stop_empty, stop_full, stop_join,
}
use muzi.ThreadPool.Run.{
  Action, start_with, test, take, retake, notify_one_full, end, spurious, call, notify_one_empty,
  push, repush, call_stop, all_empty, all_full, join, step, Run, done as ended, after, expected,
  all_expected,
}
use muzi.ThreadPool.Queue.{sound, step-sound-some, Run-sound_at}

-- Stop() has called the first NotifyAll(), and no thread is in Run().
abbrev pub notified : ThreadPool → Bool
notified p =
    not p.running
    && ((same_stopper p.stopper notifying_full || same_stopper p.stopper joining)
        && ((p.notifying == 0) && ((p.pushing == 0) && ((p.blocked == 0) && (p.unblocked == 0)))))

abbrev stranded : ThreadPool → Bool
stranded p = notified p && ltb 0 p.asleep

abbrev kept : ThreadPool → Option ThreadPool → Bool
kept p none = true
kept p (some p') = not (stranded p && sound p) || stranded p'

take_task-kept :
    (ts : List ℕ) (p : ThreadPool) → stranded p ≡ true → stranded (take_task ts p) ≡ true
unfolding take_task
take_task-kept [] p h = ground arith
take_task-kept (t ∷ ts) p h = ground arith

step-kept : (a : Action) (p : ThreadPool) → expected a ≡ true → kept p (step a p) ≡ true
unfolding step start test_running first_take woken_take notify_full end_task call_run first_push
    unblocked_push notify_empty stop stop_empty stop_full stop_join
step-kept (start_with n) p x = ground arith
step-kept test p x = ground arith
step-kept take p x =
    let t = take_task-kept p.queue (record p { locking = p.locking - 1 }) in ground (arith, t)
step-kept retake p x = ground arith
step-kept notify_one_full p x = ground arith
step-kept end p x = ground arith
step-kept spurious p x = cc
step-kept call p x = ground arith
step-kept notify_one_empty p x = ground arith
step-kept (push t) p x = ground arith
step-kept (repush t) p x = ground arith
step-kept call_stop p x = ground arith
step-kept all_empty p x = ground arith
step-kept all_full p x = ground arith
step-kept join p x = ground arith

Run-stranded :
    {acts : List Action} {p p' : ThreadPool}
    → Run p acts p'
    → all_expected acts ≡ true
    → sound p ≡ true
    → stranded p ≡ true
    → stranded p' ≡ true
Run-stranded (ended p) x s h = h
Run-stranded {p = p} (after {p₁ = p₁} a e rest) x s h =
    let k : kept p (some p₁) ≡ true =
      subst (λ r. kept p r ≡ true) e (step-kept a p (ground (arith, x))) in
    Run-stranded rest (ground (arith, x)) (step-sound-some a p p₁ e s) (ground (arith, k))

abbrev sleeps : Option ThreadPool → Bool
sleeps none = true
sleeps (some p) = stranded p

take-sleeps : (p : ThreadPool) → notified p ≡ true → p.queue ≡ [] → sleeps (step take p) ≡ true
unfolding step first_take take_task
take-sleeps p n e =
    let p' = record p { locking = p.locking - 1 } in
    subst (λ l. sleeps (guard (ltb 0 p.locking) (take_task l p')) ≡ true) (sym e) (ground arith)

-- A worker that has found running_ set and takes the lock only when Stop() has notified all goes to
-- sleep if the queue is empty. If no thread is in Run() at that time, it sleeps in every later state,
-- and Stop() is never done, unless a Wait() returns without a notification.
pub stop-asleep :
    (z : ℤ) {acts₀ acts : List Action} {p p' : ThreadPool}
    → Run (init z) acts₀ p
    → notified p ≡ true
    → p.queue ≡ []
    → all_expected acts ≡ true
    → Run p (take ∷ acts) p'
    → (0 < p'.asleep) × (same_stopper p'.stopper done ≡ false)
stop-asleep z {p = p} r₀ n e x (after {p₁ = p₁} _ t rest) =
    let first : stranded p₁ ≡ true = subst (λ r. sleeps r ≡ true) t (take-sleeps p n e) in
    let s₁ = step-sound-some take p p₁ t (Run-sound_at z r₀) in
    let last = Run-stranded rest x s₁ first in (ground (arith, last), ground (arith, last))
