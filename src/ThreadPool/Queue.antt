-- ===== src/ThreadPool/Queue.antt =====
-- The threads are counted at their places, and a task in the queue does not wait while all workers
-- sleep.
use mathlib.Core.Path.{subst}
use muzi.Prelude.{
  ℕ, suc, ◌+◌, ◌-◌, ◌<◌, ◌≡◌, ◌≢◌, refl, ap, Bool, true, false, not, ◌&&◌, ◌||◌, List, [], ◌∷◌,
  ◌++◌, Option, none, some, arith, length, length-append, ltb, leb, ◌==◌, is_empty, ℤ, pos, negsuc,
}
use muzi.ThreadPool.{
  ThreadPool, init, at_least, is_full, start, test_running, take_task, first_take, woken_take,
  notify_full, end_task, call_run, push_task, first_push, unblocked_push, notify_empty, stop,
  stop_empty, stop_full, stop_join,
}
use muzi.ThreadPool.Run.{
  Action, start_with, test, take, retake, notify_one_full, end, spurious, call, notify_one_empty,
  push, repush, call_stop, all_empty, all_full, join, step, Run, Run-keeps,
}

-- A bound that is not positive is none.
abbrev pub within : ℤ → ℕ → Bool
within (pos m) n = (m == 0) || leb n m
within (negsuc m) n = true

-- The workers that are not asleep.
abbrev pub awake : ThreadPool → ℕ
awake p = p.testing + (p.locking + (p.woken + (p.freeing + p.busy)))

-- A running pool with workers and a task in the queue has a worker up or a notification to come.
abbrev pub fed : ThreadPool → Bool
fed p = not p.running || ((p.threads == 0) || (is_empty p.queue || ltb 0 (p.notifying + awake p)))

-- Every thread is somewhere, and none is back while the pool runs.
abbrev pub counted : ThreadPool → Bool
counted p = ((awake p + (p.asleep + p.exited)) == p.threads) && (not p.running || (p.exited == 0))

abbrev pub sound : ThreadPool → Bool
sound p = within p.max_queue_size (length p.queue) && (fed p && counted p)

abbrev sound_after : Option ThreadPool → Bool
sound_after none = true
sound_after (some p) = sound p

within_push : (z : ℤ) (n : ℕ) → at_least z n ≡ false → within z n ≡ true → within z (n + 1) ≡ true
within_push (pos m) n h w = ground arith
within_push (negsuc m) n h w = refl

within_pop : (z : ℤ) (n : ℕ) → within z (suc n) ≡ true → within z n ≡ true
within_pop (pos m) n w = ground arith
within_pop (negsuc m) n w = refl

-- A worker that takes the lock for the first time, and again behind Wait().
first_take-sound :
    (ts : List ℕ) (p : ThreadPool)
    → p.queue ≡ ts
    → sound p ≡ true
    → ltb 0 p.locking ≡ true
    → sound (take_task ts (record p { locking = p.locking - 1 })) ≡ true
unfolding take_task
first_take-sound [] p e h l = ground (arith, e)
first_take-sound (t ∷ ts) p e h l =
    let w = within_pop p.max_queue_size (length ts) in
    let len : length p.queue ≡ suc (length ts) = ap length e in ground (arith, e)

woken_take-sound :
    (ts : List ℕ) (p : ThreadPool)
    → p.queue ≡ ts
    → sound p ≡ true
    → ltb 0 p.woken ≡ true
    → sound (take_task ts (record p { woken = p.woken - 1 })) ≡ true
unfolding take_task
woken_take-sound [] p e h l = ground (arith, e)
woken_take-sound (t ∷ ts) p e h l =
    let w = within_pop p.max_queue_size (length ts) in
    let len : length p.queue ≡ suc (length ts) = ap length e in ground (arith, e)

push_task-sound : (t : ℕ) (p : ThreadPool) → sound p ≡ true → sound (push_task t p) ≡ true
unfolding push_task is_full
push_task-sound t p h =
    let w = within_push p.max_queue_size (length p.queue) in
    let len : length (p.queue ++ t ∷ []) ≡ length p.queue + 1 = length-append p.queue (t ∷ []) in
    ground (arith, w, len)

step-sound : (a : Action) (p : ThreadPool) → sound p ≡ true → sound_after (step a p) ≡ true
unfolding step start test_running first_take woken_take notify_full end_task call_run first_push
    unblocked_push notify_empty stop stop_empty stop_full stop_join
step-sound (start_with n) p h = ground arith
step-sound test p h = ground arith
step-sound take p h = let s = first_take-sound p.queue p refl h in ground (arith, s)
step-sound retake p h = let s = woken_take-sound p.queue p refl h in ground (arith, s)
step-sound notify_one_full p h = ground arith
step-sound end p h = ground arith
step-sound spurious p h = ground arith
step-sound call p h = ground arith
step-sound notify_one_empty p h = ground arith
step-sound (push t) p h =
    let s = push_task-sound t (record p { pushing = p.pushing - 1 }) h in ground (arith, s)
step-sound (repush t) p h =
    let s = push_task-sound t (record p { unblocked = p.unblocked - 1 }) h in ground (arith, s)
step-sound call_stop p h = ground arith
step-sound all_empty p h = ground arith
step-sound all_full p h = ground arith
step-sound join p h = ground arith

pub step-sound-some :
    (a : Action) (p p₁ : ThreadPool) → step a p ≡ some p₁ → sound p ≡ true → sound p₁ ≡ true
step-sound-some a p p₁ e h = subst (λ r. sound_after r ≡ true) e (step-sound a p h)

init-sound : (z : ℤ) → sound (init z) ≡ true
unfolding init
init-sound (pos m) = ground arith
init-sound (negsuc m) = refl

pub Run-sound_at :
    (z : ℤ) {acts : List Action} {p : ThreadPool} → Run (init z) acts p → sound p ≡ true
Run-sound_at z r = Run-keeps (λ q. sound q ≡ true) step-sound-some r (init-sound z)

-- However the threads take turns, while the pool runs with workers and a task is in the queue, a
-- worker is up or a notification is still to come.
pub queue-awake :
    (z : ℤ) {acts : List Action} {p : ThreadPool}
    → Run (init z) acts p
    → p.running ≡ true
    → 0 < p.threads
    → p.queue ≢ []
    → 0 < p.notifying + awake p
queue-awake z {p = p} r up some_threads waits = let s = Run-sound_at _ r in ground (arith, s, waits)
