-- ===== src/EventLoop/Quit.antt =====
-- Quit() ends the loop, but its caller may sleep for ever.
use mathlib.Core.Path.{subst}
use muzi.Prelude.{
  ℕ, ◌≡◌, refl, Bool, true, not, ◌&&◌, ◌||◌, List, [], ◌∷◌, Option, none, some, arith, ltb,
}
use muzi.EventLoop.{
  EventLoop, init, outside, polling, waking, falling_asleep, asleep, at, quitter_at, wake_up,
  handle_wakeup_read, queue_in_loop, enter_loop, test_quit, poll_return, swap_functors, run_first,
  run_functor, end_functors, leave_loop, quit_in_loop, quit_elsewhere, quit_wake, quit_lock,
  quit_check, quit_sleep,
}
use muzi.EventLoop.Run.{
  Action, enter, test, handle_wakeup, swap, run, end, leave, return, queue, quit_here,
  push_elsewhere, wake_elsewhere, quit_there, wake, lock, check, sleep, step, Run, after, Run-keeps,
}

-- The loop does not sleep on a quit_ that is set.
abbrev heard : EventLoop → Bool
heard s = not (at s polling && s.quit) || (ltb 0 s.wakeups || quitter_at s waking)

-- A thread sleeps in Quit() of a loop that has ended.
abbrev stranded : EventLoop → Bool
stranded s = quitter_at s asleep && (at s outside && s.quit)

abbrev kept : (EventLoop → Bool) → EventLoop → Option EventLoop → Bool
kept p s none = true
kept p s (some s') = not (p s) || p s'

abbrev both : EventLoop → Option EventLoop → Bool
both s r = kept heard s r && kept stranded s r

run_first-both : (fs : List ℕ) (s : EventLoop) → both s (run_first fs s) ≡ true
run_first-both [] s = refl
run_first-both (f ∷ fs) s = ground arith

step-both : (a : Action) (s : EventLoop) → both s (step a s) ≡ true
unfolding step wake_up handle_wakeup_read queue_in_loop enter_loop test_quit poll_return
    swap_functors run_functor end_functors leave_loop quit_in_loop quit_elsewhere quit_wake
    quit_lock quit_check quit_sleep
step-both enter s = ground arith
step-both test s = ground arith
step-both handle_wakeup s = ground arith
step-both swap s = ground arith
step-both run s = run_first-both s.current s
step-both end s = ground arith
step-both leave s = ground arith
step-both (return other) s = ground arith
step-both (queue f) s = ground arith
step-both quit_here s = ground arith
step-both (push_elsewhere f) s = ground arith
step-both wake_elsewhere s = ground arith
step-both quit_there s = ground arith
step-both wake s = ground arith
step-both lock s = ground arith
step-both check s = ground arith
step-both sleep s = ground arith

step-heard : (a : Action) (s s₁ : EventLoop) → step a s ≡ some s₁ → heard s ≡ true → heard s₁ ≡ true
step-heard a s s₁ e h = let b = subst (λ r. both s r ≡ true) e (step-both a s) in ground arith

step-stranded :
    (a : Action) (s s₁ : EventLoop) → step a s ≡ some s₁ → stranded s ≡ true → stranded s₁ ≡ true
step-stranded a s s₁ e h = let b = subst (λ r. both s r ≡ true) e (step-both a s) in ground arith

-- However the threads take turns, while the loop sleeps in Poll() and quit_ is set, the eventfd is
-- set or the thread in Quit() is about to set it.
pub polling-quit :
    {acts : List Action} {s : EventLoop}
    → Run init acts s
    → at s polling ≡ true
    → s.quit ≡ true
    → (ltb 0 s.wakeups || quitter_at s waking) ≡ true
unfolding init
polling-quit {s = s} r p q =
    let h : heard s ≡ true = Run-keeps (λ t. heard t ≡ true) step-heard r refl in ground arith

-- The thread in Quit() does not sleep yet, and the loop has gone.
abbrev late : EventLoop → Bool
late s = quitter_at s falling_asleep && (at s outside && s.quit)

abbrev holds_after : (EventLoop → Bool) → Option EventLoop → Bool
holds_after p none = true
holds_after p (some s) = p s

leave_late :
    (s : EventLoop)
    → s.quit ≡ true
    → quitter_at s falling_asleep ≡ true
    → holds_after late (step leave s) ≡ true
unfolding step leave_loop
leave_late s q f = ground arith

sleep_stranded : (s : EventLoop) → late s ≡ true → holds_after stranded (step sleep s) ≡ true
unfolding step quit_sleep
sleep_stranded s h = ground arith

-- Where the thread in Quit() has found looping_ set and does not sleep yet as the loop notifies,
-- the notification is lost: the thread goes to sleep and sleeps in every later state.
pub quit_sleep-leave_loop :
    {acts : List Action} {s s' : EventLoop}
    → s.quit ≡ true
    → quitter_at s falling_asleep ≡ true
    → Run s (leave ∷ sleep ∷ acts) s'
    → (quitter_at s' asleep ≡ true) × (at s' outside ≡ true)
quit_sleep-leave_loop {s = s} q f (after {s₁ = s₁} _ e (after _ e' rest)) =
    let l : late s₁ ≡ true = subst (λ r. holds_after late r ≡ true) e (leave_late s q f) in
    let b = subst (λ r. holds_after stranded r ≡ true) e' (sleep_stranded s₁ l) in
    let c = Run-keeps (λ t. stranded t ≡ true) step-stranded rest b in
    (ground (arith, c), ground (arith, c))
