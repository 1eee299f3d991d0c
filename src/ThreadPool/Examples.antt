-- ===== src/ThreadPool/Examples.antt =====
-- Tests of the thread pool, and its theorems at concrete runs.
use muzi.Prelude.{
  ◌+◌, ◌<◌, ◌≤◌, ◌≡◌, refl, true, false, List, [], ◌∷◌, arith, length, pos, negsuc, ◌++◌,
}
use muzi.ThreadPool.{
  ThreadPool, joining, done, same_stopper, init, is_full, start, test_running, take_task,
  first_take, call_run, push_task, first_push, stop, stop_empty, stop_full,
}
use muzi.ThreadPool.Run.{
  Action, start_with, test, take, call, push, call_stop, all_empty, all_full, step, Run,
  done as ended, after,
}
use muzi.ThreadPool.Queue.{awake, queue-awake}
use muzi.ThreadPool.Order.{length-within}
use muzi.ThreadPool.Stop.{stop-asleep}

-- One worker and a queue of one place; a second task has to wait.
abbrev filling : List Action
filling = start_with 1 ∷ call ∷ call ∷ push 7 ∷ push 8 ∷ test ∷ []

abbrev filled : ThreadPool
filled = record (init (pos 1)) {
  running = true;
  queue = 7 ∷ [];
  threads = 1;
  locking = 1;
  blocked = 1;
  notifying = 1;
  pushed = 7 ∷ [];
}

filling_run : Run (init (pos 1)) filling filled
unfolding init step start call_run first_push push_task is_full test_running
filling_run = after (start_with 1) refl (
    after call refl (
      after call refl (after (push 7) refl (after (push 8) refl (after test refl (ended filled))))))

length-within_example : (length filled.queue ≤ 1) × (filled.pushed ≡ filled.taken ++ filled.queue)
unfolding init
length-within_example = length-within 1 (omega arith) filling_run

queue-awake_example : 0 < filled.notifying + awake filled
unfolding init
queue-awake_example = queue-awake (pos 1) filling_run refl (omega arith) (λ e. cc)

-- Stop() notifies between the worker's test of running_ and its lock.
abbrev racing : List Action
racing = start_with 1 ∷ test ∷ call_stop ∷ all_empty ∷ all_full ∷ []

abbrev raced : ThreadPool
raced = record (init (negsuc 0)) { threads = 1; locking = 1; stopper = joining }

racing_run : Run (init (negsuc 0)) racing raced
unfolding init step start test_running stop stop_empty stop_full
racing_run = after (start_with 1) refl (
    after test refl
      (after call_stop refl (after all_empty refl (after all_full refl (ended raced)))))

abbrev stuck : ThreadPool
stuck = record raced { locking = 0; asleep = 1 }

stuck_run : Run raced (take ∷ call ∷ []) stuck
unfolding init step first_take take_task call_run
stuck_run = after take refl (after call refl (ended stuck))

stop-asleep_example : (0 < stuck.asleep) × (same_stopper stuck.stopper done ≡ false)
unfolding init
stop-asleep_example = stop-asleep (negsuc 0) racing_run refl refl refl stuck_run
