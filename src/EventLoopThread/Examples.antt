-- ===== src/EventLoopThread/Examples.antt =====
-- Tests of the thread, and its theorems at concrete runs.
use muzi.Prelude.{◌≡◌, ◌⊎◌, refl, true, false, [], ◌∷◌}
use muzi.EventLoopThread.{
  entering, running, ending, falling_asleep, started, waiting, checking, is_quitting,
  EventLoopThread, init, run_thread, start_loop, call_quit, stop,
}
use muzi.EventLoopThread.Runs.{thread_runs, owner_starts, owner_stops, step, Run, done, after}
use muzi.EventLoopThread.Ends.{Ends, lost}
use muzi.EventLoopThread.Stop.{quit-Ends}

-- StartLoop() has returned, and the thread is about to call Loop().
abbrev early : EventLoopThread
early = record { runner = entering; owner = started; loop = true; looping = false; quit = false }

-- Stop() has been called in time.
abbrev asked : EventLoopThread
asked = record { runner = running; owner = checking; loop = true; looping = true; quit = true }

asked_run :
    Run init
      (owner_starts ∷ thread_runs ∷ owner_starts ∷ thread_runs ∷ thread_runs ∷ owner_stops ∷ [])
      asked
unfolding step run_thread start_loop stop call_quit
asked_run = after owner_starts refl (
    after thread_runs refl (
      after owner_starts refl
        (after thread_runs refl (after thread_runs refl (after owner_stops refl (done _))))))

-- The owner has found looping_ set, and the thread has notified before the owner waits.
abbrev missed : EventLoopThread
missed = record {
  runner = ending;
  owner = falling_asleep;
  loop = true;
  looping = false;
  quit = true;
}

missed_run : Run asked (owner_stops ∷ thread_runs ∷ thread_runs ∷ []) missed
unfolding step run_thread stop
missed_run = after owner_stops refl (after thread_runs refl (after thread_runs refl (done _)))

-- From `asked` the two can end, though not behind these actions.
quit-Ends_example :
    ((lost asked ≡ false) × Ends asked)
    ⊎ ((lost asked ≡ true) × (is_quitting missed.owner ≡ true) × (missed.runner ≡ ending))
quit-Ends_example = quit-Ends asked_run refl missed_run

-- The same without the thread's last action.
abbrev hung : EventLoopThread
hung = record { runner = running; owner = waiting; loop = true; looping = true; quit = false }
