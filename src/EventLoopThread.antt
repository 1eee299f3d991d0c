-- ===== src/EventLoopThread.antt =====
-- muzi/net/event_loop_thread.h and event_loop_thread.cc: the thread that has an EventLoop on its
-- stack, and its owner, who starts and stops it. The two take turns, an action at a time; `none` is
-- an action that cannot be taken now, or a failed assertion. Of the loop there are looping_, quit_
-- and the condition that Quit() waits on (muzi/net/event_loop.cc): its Wait() returns with a
-- notification only. The two waits for loop_ are tests of it, since it changes with lock_ held and is
-- notified of.
pub mod Runs
pub mod Ends
pub mod Stop
mod Examples
use muzi.Prelude.{Bool, true, false, not, ◌&&◌, ◌||◌, Option, none, some, if◌then◌else◌}

-- Where ThreadFunc() stands: not begun, before it takes lock_ for loop_, in the callback, before
-- Loop(), in its loop, before its NotifyAll(), behind Loop(), and at the end.
pub data Runner : Type 0 where
  unborn creating calling_back entering running notifying ending gone : Runner

-- Where the owner stands: before StartLoop(), waiting in it, behind it, in Quit() about to test
-- looping_, behind the test and before its Wait(), in this Wait(), waiting in Stop(), and behind it.
pub data Owner : Type 0 where
  idle starting started checking falling_asleep asleep waiting stopped : Owner

-- `loop` says that loop_ is set.
pub record EventLoopThread : Type 0 where
  pub runner : Runner
  pub owner : Owner
  pub loop : Bool
  pub looping : Bool
  pub quit : Bool

abbrev pub init : EventLoopThread
init = record { runner = unborn; owner = idle; loop = false; looping = false; quit = false }

abbrev pub is_quitting : Owner → Bool
is_quitting checking = true
is_quitting falling_asleep = true
is_quitting asleep = true
is_quitting _ = false

-- Stop() holds lock_ while it is in Quit().
abbrev pub locked : EventLoopThread → Bool
locked s = is_quitting s.owner

abbrev pub with_runner : EventLoopThread → Runner → Option EventLoopThread
with_runner s r = some (record s { runner = r })

abbrev pub with_owner : EventLoopThread → Owner → Option EventLoopThread
with_owner s o = some (record s { owner = o })

-- NotifyAll() of the loop's condition.
abbrev pub notify_all : Owner → Owner
notify_all asleep = checking
notify_all o = o

-- ThreadFunc(), up to its next stop.
pub run_thread : EventLoopThread → Runner → Option EventLoopThread
run_thread s unborn = none
run_thread s creating =
    if locked s then none else some (record s { runner = calling_back; loop = true })
run_thread s calling_back = with_runner s entering
run_thread s entering =
    if s.looping || s.quit then none else some (record s { runner = running; looping = true })
run_thread s running =
    if s.quit then some (record s { runner = notifying; looping = false }) else some s
run_thread s notifying = some (record s { runner = ending; owner = notify_all s.owner })
run_thread s ending = if locked s then none else some (record s { runner = gone; loop = false })
run_thread s gone = none

-- StartLoop(), and its wait for the loop.
pub start_loop : EventLoopThread → Owner → Option EventLoopThread
start_loop s idle = if s.loop then none else some (record s { owner = starting; runner = creating })
start_loop s starting = if s.loop then with_owner s started else some s
start_loop s _ = none

-- Quit() from another thread, up to its loop.
pub call_quit : EventLoopThread → Option EventLoopThread
call_quit s =
    if s.looping && not s.quit
    then some (record s { owner = checking; quit = true })
    else with_owner s waiting

-- The loop of Quit() around its Wait().
abbrev pub quit_wait : EventLoopThread → Owner → Option EventLoopThread
quit_wait s checking = if s.looping then with_owner s falling_asleep else with_owner s waiting
quit_wait s falling_asleep = with_owner s asleep
quit_wait s _ = none

-- Stop(), its call of Quit() and its wait for the thread.
pub stop : EventLoopThread → Owner → Option EventLoopThread
stop s idle = if s.loop then call_quit s else with_owner s stopped
stop s started = if s.loop then call_quit s else with_owner s stopped
stop s waiting = if s.loop then some s else with_owner s stopped
stop s o = quit_wait s o
