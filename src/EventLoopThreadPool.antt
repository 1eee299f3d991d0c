-- ===== src/EventLoopThreadPool.antt =====
-- muzi/net/event_loop_thread_pool.h and event_loop_thread_pool.cc: the loops that connections are
-- dealt out to. `none` is a failed assertion or an access
-- out of range. SetThreadNum() is not called once the pool has started. What EventLoopThread::StartLoop() returns for the
-- thread `i` is an argument, `loop_of i`.
pub mod Rounds
mod Examples
use muzi.Prelude.{
  ℕ, zero, suc, ◌+◌, ◌%◌, Bool, true, false, not, List, [], ◌∷◌, ◌++◌, Option, none, some, length,
  get_or, ltb, ◌==◌, ◌&&◌, if◌then◌else◌, is_empty,
}

-- What a thread gets as its initial callback: the one of Start(), or what a move has left of it.
pub data Callback : Type 0 where
  given moved : Callback

-- Each of `threads` is a thread's callback.
pub record EventLoopThreadPool : Type 0 where
  pub base_loop : ℕ
  pub thread_nums : ℕ
  pub started : Bool
  pub next : ℕ
  pub threads : List Callback
  pub event_loops : List ℕ
  pub called_on_base : Bool

unfoldable pub init : ℕ → ℕ → EventLoopThreadPool
init base n = record {
  base_loop = base;
  thread_nums = n;
  started = false;
  next = 0;
  threads = [];
  event_loops = [];
  called_on_base = false;
}

-- The loop of Start(): `n` more threads, of which the first is thread `i`.
unfoldable pub start_threads :
    (ℕ → ℕ) → ℕ → ℕ → Callback → EventLoopThreadPool → EventLoopThreadPool
start_threads loop_of zero i callback p = p
start_threads loop_of (suc n) i callback p = start_threads loop_of n (suc i) moved (record p {
  threads = p.threads ++ callback ∷ [];
  event_loops = p.event_loops ++ loop_of i ∷ [];
})

-- `has_callback` says whether Start() is given a callback that is set.
unfoldable pub start : (ℕ → ℕ) → Bool → EventLoopThreadPool → Option EventLoopThreadPool
start loop_of has_callback p =
    let q = start_threads loop_of p.thread_nums 0 given p in
    if p.started
    then none
    else some (record q { called_on_base = (q.thread_nums == 0) && has_callback; started = true })

unfoldable pub get_next_loop : EventLoopThreadPool → Option (ℕ × EventLoopThreadPool)
get_next_loop p =
    if p.started
    then if is_empty p.event_loops
      then some (p.base_loop, p)
      else if ltb p.next (length p.event_loops)
      then some (
        get_or p.event_loops p.next p.base_loop,
        record p { next = (p.next + 1) % p.thread_nums },
      )
      else none
    else none

pub get_loop_for_hash : ℕ → EventLoopThreadPool → Option ℕ
get_loop_for_hash hashcode p =
    if p.started
    then if is_empty p.event_loops
      then some p.base_loop
      else some (get_or p.event_loops (hashcode % length p.event_loops) p.base_loop)
    else none

pub get_all_loops : EventLoopThreadPool → Option (List ℕ)
get_all_loops p =
    if p.started
    then if is_empty p.event_loops then some (p.base_loop ∷ []) else some p.event_loops
    else none
