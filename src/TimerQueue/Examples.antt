-- ===== src/TimerQueue/Examples.antt =====
-- Tests of the timer queue, and its theorems at concrete queues.
use muzi.Prelude.{ℕ, ◌*◌, ◌≡◌, refl, true, false, List, [], ◌∷◌, some, arith}
use muzi.TimerQueue.{
  Timer, TimerQueue, Call, add, cancel, init, insert, find, cancel_timer_in_loop, cancel_found,
  take_expired, get_expired, restart, reinsert, reset_timer, reset_timer_fd, add_timer,
  add_timer_in_loop, make_call, run_all, handle_read,
}
use muzi.TimerQueue.Invariant.{IsValid}
use muzi.TimerQueue.Cancel.{Cancels, cancel_timer_in_loop_lem}
use muzi.TimerQueue.Expiry.{get_expired_lem}
use muzi.TimerQueue.Restart.{with_restarted, reset_timer_lem}

abbrev once : ℕ → ℕ → Timer
once when id = record {
  expiration = when;
  interval = 0;
  repeated = false;
  sequence = id;
  address = 64 * id;
}

abbrev every : ℕ → ℕ → Timer
every when id = record (once when id) { interval = 100; repeated = true }

abbrev queue : TimerQueue
queue = record init {
  timers = every 10 1 ∷ once 20 2 ∷ once 90 3 ∷ [];
  active_timers = once 90 3 ∷ once 20 2 ∷ every 10 1 ∷ [];
}

abbrev queue_again : TimerQueue
queue_again = record queue {
  timers = once 90 3 ∷ [];
  active_timers = once 90 3 ∷ [];
  expired_timers = every 10 1 ∷ once 20 2 ∷ [];
}

queue_find : (i : ℕ) → find i queue.timers ≡ find i queue.active_timers
unfolding init
queue_find i = grind arith

queue-IsValid : IsValid queue
unfolding init
queue-IsValid = record {
  sorted = ((refl, (refl, tt)), ((refl, tt), (tt, tt)));
  unique = (refl, (refl, (refl, tt)));
  unique_active = (refl, (refl, (refl, tt)));
  same_find = queue_find;
}

queue_again-IsValid : IsValid queue_again
unfolding init
queue_again-IsValid = record {
  sorted = (tt, tt);
  unique = (refl, tt);
  unique_active = (refl, tt);
  same_find = λ i. refl;
}

-- The repeated timer cancels itself in its callback, the other one adds a timer.
abbrev calls : List Timer → List Call
calls expired = cancel 1 ∷ add 31 (once 50 4) ∷ []

handle_read-queue :
    handle_read 30 32 calls queue
    ≡ some (record queue {
      timers = once 50 4 ∷ once 90 3 ∷ [];
      active_timers = once 50 4 ∷ once 90 3 ∷ [];
      armed = some 18;
    })
unfolding handle_read get_expired take_expired run_all make_call add_timer add_timer_in_loop insert
    cancel_timer_in_loop cancel_found reset_timer reinsert restart reset_timer_fd init
handle_read-queue = refl

cancel_timer_in_loop_example : Cancels queue 2
cancel_timer_in_loop_example = cancel_timer_in_loop_lem queue 2 queue-IsValid

get_expired_example :
    (q' : TimerQueue) × (get_expired 30 queue ≡ some q')
    × IsValid q'
    × (q'.timers ≡ once 90 3 ∷ [])
    × (q'.expired_timers ≡ every 10 1 ∷ once 20 2 ∷ [])
unfolding init
get_expired_example = get_expired_lem 30 queue queue-IsValid refl

reset_timer_example :
    (q' : TimerQueue) × (reset_timer 30 31 queue_again ≡ some q')
    × IsValid q'
    × ((i : ℕ)
        → find i q'.timers
          ≡ find i (with_restarted 30 [] queue_again.expired_timers queue_again.timers))
    × (q'.expired_timers ≡ [])
    × (q'.canceling_timers ≡ [])
unfolding init
reset_timer_example =
    reset_timer_lem 30 31 queue_again queue_again-IsValid (refl, (refl, (refl, (refl, tt))))
