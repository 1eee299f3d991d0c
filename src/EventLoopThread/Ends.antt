-- ===== src/EventLoopThread/Ends.antt =====
-- How a Stop() that has set quit_ ends from every place where the two can stand.
use muzi.Prelude.{◌≡◌, ◌≤◌, refl, Bool, true, false, List, [], ◌∷◌, arith, length}
use muzi.EventLoopThread.{
  Runner, unborn, creating, calling_back, entering, running, notifying, ending, gone, Owner, idle,
  starting, started, checking, falling_asleep, asleep, waiting, stopped, EventLoopThread,
  run_thread, stop,
}
use muzi.EventLoopThread.Runs.{
  thread_runs, owner_stops, Action, step, Run, done, after, is_running, has_loop, asked,
}

-- A Stop() that ends, after at most six actions.
abbrev pub Ends : EventLoopThread → Type 0
Ends s =
    (acts : List Action) × (s' : EventLoopThread) × Run s acts s'
    × (length acts ≤ 6)
    × (s'.owner ≡ stopped)
    × (s'.runner ≡ gone)

-- The loop's NotifyAll() has come between the owner's test of looping_ and its Wait().
abbrev pub is_lost : Runner → Owner → Bool
is_lost ending falling_asleep = true
is_lost ending asleep = true
is_lost _ _ = false

abbrev pub lost : EventLoopThread → Bool
lost s = is_lost s.runner s.owner

abbrev pub asked_to_end : Runner → Owner → EventLoopThread
asked_to_end r o = record {
  runner = r;
  owner = o;
  loop = has_loop r;
  looping = is_running r;
  quit = true;
}

pub asked_to_end-Ends :
    (r : Runner) (o : Owner) → asked r o ≡ true → is_lost r o ≡ false → Ends (asked_to_end r o)
unfolding step run_thread stop
asked_to_end-Ends running idle h l = absurd (ground (arith, h))
asked_to_end-Ends running starting h l = absurd (ground (arith, h))
asked_to_end-Ends running started h l = absurd (ground (arith, h))
asked_to_end-Ends running checking h l = (
  (thread_runs ∷ thread_runs ∷ owner_stops ∷ thread_runs ∷ owner_stops ∷ []),
  _,
  (after thread_runs refl (
      after thread_runs refl
        (after owner_stops refl (after thread_runs refl (after owner_stops refl (done _)))))),
  omega arith,
  refl,
  refl,
)
asked_to_end-Ends running falling_asleep h l = (
  (owner_stops ∷ thread_runs ∷ thread_runs ∷ owner_stops ∷ thread_runs ∷ owner_stops ∷ []),
  _,
  (after owner_stops refl (
      after thread_runs refl (
        after thread_runs refl
          (after owner_stops refl (after thread_runs refl (after owner_stops refl (done _))))))),
  omega arith,
  refl,
  refl,
)
asked_to_end-Ends running asleep h l = (
  (thread_runs ∷ thread_runs ∷ owner_stops ∷ thread_runs ∷ owner_stops ∷ []),
  _,
  (after thread_runs refl (
      after thread_runs refl
        (after owner_stops refl (after thread_runs refl (after owner_stops refl (done _)))))),
  omega arith,
  refl,
  refl,
)
asked_to_end-Ends running waiting h l = absurd (ground (arith, h))
asked_to_end-Ends running stopped h l = absurd (ground (arith, h))
asked_to_end-Ends notifying idle h l = absurd (ground (arith, h))
asked_to_end-Ends notifying starting h l = absurd (ground (arith, h))
asked_to_end-Ends notifying started h l = absurd (ground (arith, h))
asked_to_end-Ends notifying checking h l = (
  (thread_runs ∷ owner_stops ∷ thread_runs ∷ owner_stops ∷ []),
  _,
  (after thread_runs refl
      (after owner_stops refl (after thread_runs refl (after owner_stops refl (done _))))),
  omega arith,
  refl,
  refl,
)
asked_to_end-Ends notifying falling_asleep h l = (
  (owner_stops ∷ thread_runs ∷ owner_stops ∷ thread_runs ∷ owner_stops ∷ []),
  _,
  (after owner_stops refl (
      after thread_runs refl
        (after owner_stops refl (after thread_runs refl (after owner_stops refl (done _)))))),
  omega arith,
  refl,
  refl,
)
asked_to_end-Ends notifying asleep h l = (
  (thread_runs ∷ owner_stops ∷ thread_runs ∷ owner_stops ∷ []),
  _,
  (after thread_runs refl
      (after owner_stops refl (after thread_runs refl (after owner_stops refl (done _))))),
  omega arith,
  refl,
  refl,
)
asked_to_end-Ends notifying waiting h l = (
  (thread_runs ∷ thread_runs ∷ owner_stops ∷ []),
  _,
  (after thread_runs refl (after thread_runs refl (after owner_stops refl (done _)))),
  omega arith,
  refl,
  refl,
)
asked_to_end-Ends notifying stopped h l = absurd (ground (arith, h))
asked_to_end-Ends ending idle h l = absurd (ground (arith, h))
asked_to_end-Ends ending starting h l = absurd (ground (arith, h))
asked_to_end-Ends ending started h l = absurd (ground (arith, h))
asked_to_end-Ends ending checking h l = (
  (owner_stops ∷ thread_runs ∷ owner_stops ∷ []),
  _,
  (after owner_stops refl (after thread_runs refl (after owner_stops refl (done _)))),
  omega arith,
  refl,
  refl,
)
asked_to_end-Ends ending falling_asleep h l = absurd (ground (arith, l))
asked_to_end-Ends ending asleep h l = absurd (ground (arith, l))
asked_to_end-Ends ending waiting h l = (
  (thread_runs ∷ owner_stops ∷ []),
  _,
  (after thread_runs refl (after owner_stops refl (done _))),
  omega arith,
  refl,
  refl,
)
asked_to_end-Ends ending stopped h l = absurd (ground (arith, h))
asked_to_end-Ends gone idle h l = absurd (ground (arith, h))
asked_to_end-Ends gone starting h l = absurd (ground (arith, h))
asked_to_end-Ends gone started h l = absurd (ground (arith, h))
asked_to_end-Ends gone checking h l = absurd (ground (arith, h))
asked_to_end-Ends gone falling_asleep h l = absurd (ground (arith, h))
asked_to_end-Ends gone asleep h l = absurd (ground (arith, h))
asked_to_end-Ends gone waiting h l =
    ((owner_stops ∷ []), _, (after owner_stops refl (done _)), omega arith, refl, refl)
asked_to_end-Ends gone stopped h l = (([]), _, (done _), omega arith, refl, refl)
asked_to_end-Ends unborn o h l = absurd (ground (arith, h))
asked_to_end-Ends creating o h l = absurd (ground (arith, h))
asked_to_end-Ends calling_back o h l = absurd (ground (arith, h))
asked_to_end-Ends entering o h l = absurd (ground (arith, h))
