-- ===== src/EventLoop/Run.antt =====
-- The threads' actions on a loop, and the runs that they make.
use muzi.Prelude.{ℕ, ◌-◌, ◌+◌, ◌≡◌, Bool, not, ◌&&◌, ◌||◌, List, [], ◌∷◌, Option, some, ltb}
use muzi.EventLoop.{
  EventLoop, outside, handling, running, at, locked, guard, wake_up, handle_wakeup_read, push,
  queue_in_loop, enter_loop, test_quit, poll_return, swap_functors, run_functor, end_functors,
  leave_loop, quit_in_loop, quit_elsewhere, quit_wake, quit_lock, quit_check, quit_sleep,
}

-- The first group is the loop's thread in Loop(), the second what its handlers and functors do and
-- what it queues outside Loop(),
-- the third QueueInLoop() from other threads, and the fourth a thread in Quit().
pub data Action : Type 0 where
  enter test handle_wakeup swap run end leave : Action
  return : Bool → Action
  queue : ℕ → Action
  quit_here : Action
  push_elsewhere : ℕ → Action
  wake_elsewhere : Action
  quit_there wake lock check sleep : Action

unfoldable pub step : Action → EventLoop → Option EventLoop
step enter s = enter_loop s
step test s = test_quit s
step (return other) s = poll_return other s
step handle_wakeup s = guard (at s handling && s.woken) (handle_wakeup_read s)
step swap s = swap_functors s
step run s = run_functor s
step end s = end_functors s
step leave s = leave_loop s
step (queue f) s =
    guard ((at s outside || (at s handling || at s running)) && not (locked s)) (queue_in_loop f s)
step quit_here s = guard (at s handling || at s running) (quit_in_loop s)
step (push_elsewhere f) s = guard (not (locked s)) (record (push f s) { wakers = s.wakers + 1 })
step wake_elsewhere s = guard (ltb 0 s.wakers) (record (wake_up s) { wakers = s.wakers - 1 })
step quit_there s = quit_elsewhere s
step wake s = quit_wake s
step lock s = quit_lock s
step check s = quit_check s
step sleep s = quit_sleep s

pub data Run : EventLoop → List Action → EventLoop → Type 0 where
  done : (s : EventLoop) → Run s [] s
  after :
      {s s₁ s₂ : EventLoop} (a : Action) {acts : List Action}
      → step a s ≡ some s₁
      → Run s₁ acts s₂
      → Run s (a ∷ acts) s₂

-- What every action keeps, a run keeps.
pub Run-keeps {ℓ} :
    (P : EventLoop → Type ℓ)
    → ((a : Action) (s s₁ : EventLoop) → step a s ≡ some s₁ → P s → P s₁)
    → {acts : List Action} {s s' : EventLoop} → Run s acts s'
    → P s
    → P s'
Run-keeps P keep (done s) h = h
Run-keeps P keep (after a e rest) h = Run-keeps P keep rest (keep a _ _ e h)
