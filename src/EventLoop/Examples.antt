-- ===== src/EventLoop/Examples.antt =====
-- Tests of the loop, and its theorems at concrete runs.
use muzi.Prelude.{◌+◌, ◌<◌, ◌≡◌, ◌⊎◌, refl, true, false, List, [], ◌∷◌, ◌++◌, arith}
use muzi.EventLoop.{
  EventLoop, init, polling, outside, waking, falling_asleep, asleep, leaving, at, quitter_at,
  wake_up, handle_wakeup_read, queue_in_loop, enter_loop, test_quit, poll_return, swap_functors,
  run_functor, end_functors, leave_loop, quit_elsewhere, quit_wake, quit_lock, quit_check,
  quit_sleep,
}
use muzi.EventLoop.Run.{
  Action, enter, test, handle_wakeup, swap, run, end, leave, return, queue, push_elsewhere,
  wake_elsewhere, quit_there, wake, lock, check, sleep, step, Run, done, after,
}
use muzi.EventLoop.Queue.{Run-IsValid, init-IsValid, run-InOrder}
use muzi.EventLoop.Wakeup.{polling_lem, wakes}
use muzi.EventLoop.Quit.{quit_sleep-leave_loop}

-- The functor 7 runs and queues 8 while 9 comes from another thread, and the loop sleeps again.
abbrev busy : List Action
busy =
    push_elsewhere 7
    ∷ wake_elsewhere
    ∷ enter
    ∷ test
    ∷ return false
    ∷ handle_wakeup
    ∷ swap
    ∷ run
    ∷ queue 8
    ∷ push_elsewhere 9
    ∷ end
    ∷ test
    ∷ []

abbrev asleep_again : EventLoop
asleep_again = record init {
  phase = polling;
  looping = true;
  iteration = 1;
  functors = 8 ∷ 9 ∷ [];
  wakeups = 1;
  wakers = 1;
  queued = 7 ∷ 8 ∷ 9 ∷ [];
  executed = 7 ∷ [];
}

busy_run : Run init busy asleep_again
unfolding init step wake_up handle_wakeup_read queue_in_loop enter_loop test_quit poll_return
    swap_functors run_functor end_functors
busy_run = after (push_elsewhere 7) refl (
    after wake_elsewhere refl (
      after enter refl (
        after test refl (
          after (return false) refl (
            after handle_wakeup refl (
              after swap refl (
                after run refl (
                  after (queue 8) refl (
                    after (push_elsewhere 9) refl
                      (after end refl (after test refl (done asleep_again))))))))))))

run-InOrder_example :
    asleep_again.queued ≡ asleep_again.executed ++ (asleep_again.current ++ asleep_again.functors)
unfolding init
run-InOrder_example = run-InOrder busy_run

polling_example :
    (0 < asleep_again.wakeups + asleep_again.wakers)
    ⊎ ((asleep_again.early ≡ true) × (asleep_again.iteration ≡ 0))
unfolding init
polling_example = polling_lem busy_run refl (λ e. cc)

wakes_example :
    (s' : EventLoop) × Run asleep_again (return false ∷ handle_wakeup ∷ swap ∷ run ∷ run ∷ []) s'
    × (s'.executed ≡ 7 ∷ 8 ∷ 9 ∷ [])
unfolding init
wakes_example = wakes asleep_again (Run-IsValid busy_run init-IsValid) refl (omega arith) refl

-- Quit() is called while the loop sleeps, and wakes it up.
abbrev quitting : List Action
quitting = enter ∷ test ∷ quit_there ∷ []

abbrev told_to_quit : EventLoop
told_to_quit = record init { phase = polling; looping = true; quit = true; quitter = waking }

quitting_run : Run init quitting told_to_quit
unfolding init step enter_loop test_quit quit_elsewhere
quitting_run = after enter refl (after test refl (after quit_there refl (done told_to_quit)))

-- The loop ends while the caller of Quit() has tested looping_ and does not sleep yet.
abbrev race : List Action
race = wake ∷ return false ∷ handle_wakeup ∷ swap ∷ lock ∷ check ∷ end ∷ test ∷ []

abbrev racing : EventLoop
racing = record init { phase = leaving; iteration = 1; quit = true; quitter = falling_asleep }

race_run : Run told_to_quit race racing
unfolding init step wake_up quit_wake poll_return handle_wakeup_read swap_functors quit_lock
    quit_check end_functors test_quit
race_run = after wake refl (
    after (return false) refl (
      after handle_wakeup refl (
        after swap refl
          (after lock refl (after check refl (after end refl (after test refl (done racing))))))))

abbrev stuck : EventLoop
stuck = record racing { phase = outside; quitter = asleep }

stuck_run :
    Run racing
      (leave ∷ sleep ∷ push_elsewhere 1 ∷ [])
      (record stuck { functors = 1 ∷ []; wakers = 1; queued = 1 ∷ [] })
unfolding init step leave_loop quit_sleep
stuck_run = after leave refl (after sleep refl (after (push_elsewhere 1) refl (done _)))

quit_sleep-leave_loop_example : (quitter_at stuck asleep ≡ true) × (at stuck outside ≡ true)
unfolding init
quit_sleep-leave_loop_example = quit_sleep-leave_loop refl refl stuck_run

-- A functor that the loop's thread queues before Loop() waits while the loop sleeps.
abbrev slept_over : EventLoop
slept_over = record init {
  phase = polling;
  looping = true;
  functors = 7 ∷ [];
  queued = 7 ∷ [];
  early = true;
}

slept_over_run : Run init (queue 7 ∷ enter ∷ test ∷ []) slept_over
unfolding init step queue_in_loop enter_loop test_quit
slept_over_run = after (queue 7) refl (after enter refl (after test refl (done slept_over)))
