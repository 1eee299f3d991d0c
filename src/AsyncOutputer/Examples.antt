-- ===== src/AsyncOutputer/Examples.antt =====
-- Tests of the log's writing thread, and its theorems at a concrete run.
use muzi.Prelude.{◌≤◌, ◌≡◌, refl, false, List, [], ◌∷◌, ◌++◌, none, some, length, take}
use muzi.FixedBuffer.{init as new_buffer, clear, append, add, get_avail}
use muzi.AsyncOutputer.{
  AsyncOutputer, init, waiting, ended, start, stop, flush, output, test, collect, lock, wake, write,
}
use muzi.AsyncOutputer.Run.{
  Action, call_start, call_stop, call_flush, call_output, test_loop, lock_mutex, wake_up, write_out,
  step, Run, done, after,
}
use muzi.AsyncOutputer.Progress.{step-due}
use muzi.AsyncOutputer.Order.{accepted-written, waiting_bytes}
use muzi.AsyncOutputer.Stop.{ended-written}
use muzi.AsyncOutputer.Ending.{Ends, ends}

-- Two lines are handed over, the second one while the writing thread waits, and Stop() is called.
abbrev logging : List Action
logging =
    call_start
    ∷ call_output (1 ∷ 2 ∷ [])
    ∷ test_loop
    ∷ lock_mutex
    ∷ call_flush
    ∷ call_output (3 ∷ [])
    ∷ call_stop
    ∷ []

abbrev stopped : AsyncOutputer
unfolding new_buffer
stopped = record init {
  phase = waiting;
  current_buffer = some (record { bytes = 3 ∷ [] });
  next_buffer = none;
  buffers = record { bytes = 1 ∷ 2 ∷ [] } ∷ [];
  accepted = 1 ∷ 2 ∷ 3 ∷ [];
  promised = 3;
}

logging_run : Run init logging stopped
unfolding init new_buffer step start stop flush output test lock append add get_avail
logging_run = after call_start refl (
    after (call_output (1 ∷ 2 ∷ [])) refl (
      after test_loop refl (
        after lock_mutex refl (
          after call_flush refl
            (after (call_output (3 ∷ [])) refl (after call_stop refl (done stopped)))))))

step-due_example : (s' : AsyncOutputer) × (step wake_up stopped ≡ some s')
unfolding init
step-due_example = step-due wake_up logging_run refl

accepted-written_example : stopped.accepted ≡ stopped.written ++ waiting_bytes stopped
unfolding init
accepted-written_example = accepted-written logging_run refl

ends_example : Ends 8 stopped
unfolding init
ends_example = ends logging_run refl refl

-- The whole run, to the end of the thread.
abbrev whole : List Action
whole =
    call_start
    ∷ call_output (1 ∷ 2 ∷ [])
    ∷ test_loop
    ∷ lock_mutex
    ∷ call_flush
    ∷ call_output (3 ∷ [])
    ∷ call_stop
    ∷ wake_up
    ∷ write_out
    ∷ test_loop
    ∷ lock_mutex
    ∷ wake_up
    ∷ write_out
    ∷ test_loop
    ∷ []

abbrev at_end : AsyncOutputer
unfolding new_buffer
at_end = record init {
  phase = ended;
  last_write = false;
  current_buffer = some new_buffer;
  next_buffer = some new_buffer;
  accepted = 1 ∷ 2 ∷ 3 ∷ [];
  written = 1 ∷ 2 ∷ 3 ∷ [];
  promised = 3;
}

whole_run : Run init whole at_end
unfolding init new_buffer clear step start stop flush output test collect lock wake write append add
    get_avail
whole_run = after call_start refl (
    after (call_output (1 ∷ 2 ∷ [])) refl (
      after test_loop refl (
        after lock_mutex refl (
          after call_flush refl (
            after (call_output (3 ∷ [])) refl (
              after call_stop refl (
                after wake_up refl (
                  after write_out refl (
                    after test_loop refl (
                      after lock_mutex refl (
                        after wake_up refl
                          (after write_out refl (after test_loop refl (done at_end))))))))))))))

ended-written_example :
    (at_end.promised ≤ length at_end.written)
    × (take at_end.promised at_end.accepted ≡ take at_end.promised at_end.written)
unfolding init
ended-written_example = ended-written whole_run refl refl
