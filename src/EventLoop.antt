-- ===== src/EventLoop.antt =====
-- muzi/net/event_loop.h and event_loop.cc: the loop and the functors that are queued for it. The
-- loop's thread and the other threads take turns, an action at a time. A functor is a number, and
-- what it does to the loop is an action while it runs. `none` is an action that cannot be taken
-- now: a thread that is elsewhere or blocked, or a failed assertion. A step under lock_ is one
-- action.
pub mod Run
pub mod Queue
pub mod Wakeup
pub mod Quit
mod Examples
use muzi.Prelude.{
  ℕ, suc, ◌+◌, ◌-◌, Bool, true, false, not, ◌&&◌, ◌||◌, List, [], ◌∷◌, ◌++◌, Option, none, some,
  ltb, if◌then◌else◌, is_empty,
}

-- Where the loop's thread stands in Loop(): before its call or behind it, at the test of quit_, in
-- Poll(), among the handlers of the active channels, in ExecuteFunctors(), and before NotifyAll().
pub data Phase : Type 0 where
  outside testing polling handling running leaving : Phase

-- Where a thread stands in Quit(): before the call, before WakeUp(), before it takes lock_, at the
-- test of looping_, before Wait() has put it to sleep, asleep, and behind the call. It holds lock_
-- at the test and before it sleeps.
pub data Quitter : Type 0 where
  idle waking locking checking falling_asleep asleep done : Quitter

-- `wakeups` is the counter of the eventfd, `woken` says that the wake-up channel is among the
-- active ones, `current` is cur_functors, and `wakers` counts the calls of QueueInLoop() from
-- other threads that have yet to call WakeUp(). `queued` and `executed` record what has happened, and
-- `early` that a functor which waits was queued by the loop's thread outside Loop().
pub record EventLoop : Type 0 where
  pub phase : Phase
  pub looping : Bool
  pub quit : Bool
  pub iteration : ℕ
  pub calling_functors : Bool
  pub functors : List ℕ
  pub current : List ℕ
  pub wakeups : ℕ
  pub woken : Bool
  pub wakers : ℕ
  pub quitter : Quitter
  pub queued : List ℕ
  pub executed : List ℕ
  pub early : Bool

unfoldable pub init : EventLoop
init = record {
  phase = outside;
  looping = false;
  quit = false;
  iteration = 0;
  calling_functors = false;
  functors = [];
  current = [];
  wakeups = 0;
  woken = false;
  wakers = 0;
  quitter = idle;
  queued = [];
  executed = [];
  early = false;
}

abbrev pub same_phase : Phase → Phase → Bool
same_phase outside outside = true
same_phase testing testing = true
same_phase polling polling = true
same_phase handling handling = true
same_phase running running = true
same_phase leaving leaving = true
same_phase _ _ = false

abbrev pub same_quitter : Quitter → Quitter → Bool
same_quitter idle idle = true
same_quitter waking waking = true
same_quitter locking locking = true
same_quitter checking checking = true
same_quitter falling_asleep falling_asleep = true
same_quitter asleep asleep = true
same_quitter done done = true
same_quitter _ _ = false

abbrev pub at : EventLoop → Phase → Bool
at s p = same_phase s.phase p

abbrev pub quitter_at : EventLoop → Quitter → Bool
quitter_at s q = same_quitter s.quitter q

-- The thread in Quit() holds lock_.
abbrev pub locked : EventLoop → Bool
locked s = quitter_at s checking || quitter_at s falling_asleep

abbrev pub guard : Bool → EventLoop → Option EventLoop
guard b s = if b then some s else none

pub wake_up : EventLoop → EventLoop
wake_up s = record s { wakeups = s.wakeups + 1 }

pub handle_wakeup_read : EventLoop → EventLoop
handle_wakeup_read s = record s { wakeups = 0; woken = false }

-- QueueInLoop() up to its test of the thread.
abbrev pub push : ℕ → EventLoop → EventLoop
push f s = record s { functors = s.functors ++ f ∷ []; queued = s.queued ++ f ∷ [] }

-- QueueInLoop() from the loop's thread, which wakes the loop up from a functor only.
pub queue_in_loop : ℕ → EventLoop → EventLoop
queue_in_loop f s =
    let s' = record (push f s) { early = s.early || at s outside } in
    if s.calling_functors then wake_up s' else s'

-- Loop() up to its first test of quit_.
pub enter_loop : EventLoop → Option EventLoop
enter_loop s =
    guard (at s outside && (not s.looping && not s.quit))
      (record s { looping = true; phase = testing })

pub test_quit : EventLoop → Option EventLoop
test_quit s =
    guard (at s testing) (
      if s.quit
      then record s { looping = false; phase = leaving }
      else record s { phase = polling })

-- Poll() returns when the eventfd can be read, and when it has `other` events or times out.
pub poll_return : Bool → EventLoop → Option EventLoop
poll_return other s =
    guard (at s polling && (other || ltb 0 s.wakeups))
      (record s { phase = handling; woken = ltb 0 s.wakeups; iteration = s.iteration + 1 })

-- ExecuteFunctors() up to its loop, and the turns and the end of the loop.
pub swap_functors : EventLoop → Option EventLoop
swap_functors s = guard (at s handling && (not s.woken && not (locked s))) (record s {
  calling_functors = true;
  phase = running;
  current = s.functors;
  functors = [];
  early = false;
})

abbrev pub run_first : List ℕ → EventLoop → Option EventLoop
run_first [] s = none
run_first (f ∷ fs) s =
    guard (at s running) (record s { current = fs; executed = s.executed ++ f ∷ [] })

pub run_functor : EventLoop → Option EventLoop
run_functor s = run_first s.current s

pub end_functors : EventLoop → Option EventLoop
end_functors s =
    guard (at s running && is_empty s.current)
      (record s { calling_functors = false; phase = testing })

abbrev pub notify_all : Quitter → Quitter
notify_all asleep = locking
notify_all q = q

pub leave_loop : EventLoop → Option EventLoop
leave_loop s = guard (at s leaving) (record s { phase = outside; quitter = notify_all s.quitter })

-- Quit() from the loop's thread, and from another one up to its test of the thread.
pub quit_in_loop : EventLoop → EventLoop
quit_in_loop s = if s.looping then record s { quit = true } else s

pub quit_elsewhere : EventLoop → Option EventLoop
quit_elsewhere s = guard (quitter_at s idle) (
    if s.looping && not s.quit
    then record s { quit = true; quitter = waking }
    else record s { quitter = done })

-- The rest of Quit(): WakeUp(), the lock, the test of looping_, and Wait().
pub quit_wake : EventLoop → Option EventLoop
quit_wake s = guard (quitter_at s waking) (record (wake_up s) { quitter = locking })

pub quit_lock : EventLoop → Option EventLoop
quit_lock s = guard (quitter_at s locking) (record s { quitter = checking })

pub quit_check : EventLoop → Option EventLoop
quit_check s =
    guard (quitter_at s checking)
      (record s { quitter = if s.looping then falling_asleep else done })

pub quit_sleep : EventLoop → Option EventLoop
quit_sleep s = guard (quitter_at s falling_asleep) (record s { quitter = asleep })
