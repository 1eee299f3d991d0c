-- ===== src/ThreadPool.antt =====
-- muzi/base/thread_pool.h and thread_pool.cc: a queue of tasks with its worker threads, the threads
-- that call Run() and the one that calls Stop(). The threads take turns, an action at a time; what
-- a thread does under lock_ up to a Wait() is one action. The state counts the threads at each
-- place of the code, since nothing tells them apart; a caller of Run() names its task when it
-- pushes it. `none` is an action for which no thread stands at the right place.
pub mod Run
pub mod Queue
pub mod Order
pub mod Stop
mod Examples
use muzi.Prelude.{
  ℕ, ◌+◌, ◌-◌, Bool, true, false, not, ◌&&◌, List, [], ◌∷◌, ◌++◌, Option, none, some, length, ltb,
  leb, ◌==◌, if◌then◌else◌, ℤ, pos, negsuc,
}

-- Where a thread stands in Stop(): before it, at each NotifyAll(), at the joins, and behind it.
pub data Stopper : Type 0 where
  idle notifying_empty notifying_full joining done : Stopper

-- Workers: `testing` running_, before `locking`, `asleep` on not_empty_cond_, `woken` from it, with
-- a task and before the Notify() (`freeing`), at their task (`busy`), and back from RunThread().
-- Callers of Run(): behind its tests (`pushing`), `blocked` on not_full_cond_, `unblocked`, and
-- before the Notify(). `pushed` and `taken` record what went through the queue.
pub record ThreadPool : Type 0 where
  pub max_queue_size : ℤ
  pub running : Bool
  pub queue : List ℕ
  pub threads : ℕ
  pub testing : ℕ
  pub locking : ℕ
  pub asleep : ℕ
  pub woken : ℕ
  pub freeing : ℕ
  pub busy : ℕ
  pub exited : ℕ
  pub pushing : ℕ
  pub blocked : ℕ
  pub unblocked : ℕ
  pub notifying : ℕ
  pub stopper : Stopper
  pub pushed : List ℕ
  pub taken : List ℕ

-- ThreadPool() and SetMaxQueueSize().
unfoldable pub init : ℤ → ThreadPool
init size = record {
  max_queue_size = size;
  running = false;
  queue = [];
  threads = 0;
  testing = 0;
  locking = 0;
  asleep = 0;
  woken = 0;
  freeing = 0;
  busy = 0;
  exited = 0;
  pushing = 0;
  blocked = 0;
  unblocked = 0;
  notifying = 0;
  stopper = idle;
  pushed = [];
  taken = [];
}

abbrev pub same_stopper : Stopper → Stopper → Bool
same_stopper idle idle = true
same_stopper notifying_empty notifying_empty = true
same_stopper notifying_full notifying_full = true
same_stopper joining joining = true
same_stopper done done = true
same_stopper _ _ = false

abbrev pub guard : Bool → ThreadPool → Option ThreadPool
guard b p = if b then some p else none

-- Start() of a pool that has not been started before.
pub start : ℕ → ThreadPool → Option ThreadPool
start n p =
    guard (not p.running && (p.threads == 0))
      (record p { running = true; threads = n; testing = n })

abbrev pub at_least : ℤ → ℕ → Bool
at_least (pos m) n = ltb 0 m && leb m n
at_least (negsuc m) n = false

-- IsFull()
pub is_full : ThreadPool → Bool
is_full p = at_least p.max_queue_size (length p.queue)

-- RunThread(): the test of the loop.
pub test_running : ThreadPool → Option ThreadPool
test_running p = guard (ltb 0 p.testing) (
    if p.running
    then record p { testing = p.testing - 1; locking = p.locking + 1 }
    else record p { testing = p.testing - 1; exited = p.exited + 1 })

-- A worker under the lock: it takes a task, or goes to sleep.
pub take_task : List ℕ → ThreadPool → ThreadPool
take_task [] p = record p { asleep = p.asleep + 1 }
take_task (t ∷ ts) p = record p { queue = ts; freeing = p.freeing + 1; taken = p.taken ++ t ∷ [] }

pub first_take : ThreadPool → Option ThreadPool
first_take p = guard (ltb 0 p.locking) (take_task p.queue (record p { locking = p.locking - 1 }))

-- Behind Wait(): the test of running_, and the loop again.
pub woken_take : ThreadPool → Option ThreadPool
woken_take p =
    let p' = record p { woken = p.woken - 1 } in
    guard (ltb 0 p.woken)
      (if p.running then take_task p.queue p' else record p' { exited = p.exited + 1 })

-- not_full_cond_.Notify(), and the end of the task.
pub notify_full : ThreadPool → Option ThreadPool
notify_full p =
    let p' = record p { freeing = p.freeing - 1; busy = p.busy + 1 } in
    guard (ltb 0 p.freeing) (
      if ltb 0 p.blocked
      then record p' { blocked = p.blocked - 1; unblocked = p.unblocked + 1 }
      else p')

pub end_task : ThreadPool → Option ThreadPool
end_task p = guard (ltb 0 p.busy) (record p { busy = p.busy - 1; testing = p.testing + 1 })

-- Run() up to the lock.
pub call_run : ThreadPool → ThreadPool
call_run p = if p.running then record p { pushing = p.pushing + 1 } else p

-- A caller under the lock: it waits, or pushes its task.
pub push_task : ℕ → ThreadPool → ThreadPool
push_task t p = if is_full p then record p { blocked = p.blocked + 1 } else record p {
  queue = p.queue ++ t ∷ [];
  notifying = p.notifying + 1;
  pushed = p.pushed ++ t ∷ [];
}

pub first_push : ℕ → ThreadPool → Option ThreadPool
first_push t p = guard (ltb 0 p.pushing) (push_task t (record p { pushing = p.pushing - 1 }))

pub unblocked_push : ℕ → ThreadPool → Option ThreadPool
unblocked_push t p =
    let p' = record p { unblocked = p.unblocked - 1 } in
    guard (ltb 0 p.unblocked) (if p.running then push_task t p' else p')

-- not_empty_cond_.Notify()
pub notify_empty : ThreadPool → Option ThreadPool
notify_empty p =
    let p' = record p { notifying = p.notifying - 1 } in
    guard (ltb 0 p.notifying)
      (if ltb 0 p.asleep then record p' { asleep = p.asleep - 1; woken = p.woken + 1 } else p')

-- Stop(): running_, the two NotifyAll(), and the joins.
pub stop : ThreadPool → ThreadPool
stop p = if p.running then record p { running = false; stopper = notifying_empty } else p

pub stop_empty : ThreadPool → Option ThreadPool
stop_empty p =
    guard (same_stopper p.stopper notifying_empty)
      (record p { stopper = notifying_full; asleep = 0; woken = p.woken + p.asleep })

pub stop_full : ThreadPool → Option ThreadPool
stop_full p =
    guard (same_stopper p.stopper notifying_full)
      (record p { stopper = joining; blocked = 0; unblocked = p.unblocked + p.blocked })

pub stop_join : ThreadPool → Option ThreadPool
stop_join p =
    guard (same_stopper p.stopper joining && (p.exited == p.threads)) (record p { stopper = done })
