-- ===== src/EventLoop/Queue.antt =====
-- Functors run once each and in order, and the loop does not sleep on one that waits.
use mathlib.Core.List.{append-nil, append_assoc}
use mathlib.Core.Path.{subst}
use muzi.Prelude.{
  is_empty, is_empty→nil, ℕ, ◌+◌, ◌≡◌, refl, sym, ap, ◌∙◌, Bool, true, false, not, ◌&&◌, ◌||◌, List,
  [], ◌∷◌, ◌++◌, Option, none, some, arith, ltb, ◌==◌, if◌then◌else◌, Bool-cases, inl, inr,
}
use muzi.EventLoop.{
  EventLoop, init, outside, leaving, handling, running, at, wake_up, handle_wakeup_read,
  queue_in_loop, guard, push, enter_loop, test_quit, poll_return, swap_functors, run_first,
  run_functor, end_functors, leave_loop, quit_in_loop, quit_elsewhere, quit_wake, quit_lock,
  quit_check, quit_sleep,
}
use muzi.EventLoop.Run.{
  Action, enter, test, handle_wakeup, swap, run, end, leave, return, queue, quit_here,
  push_elsewhere, wake_elsewhere, quit_there, wake, lock, check, sleep, step, Run, Run-keeps,
}

-- A functor that waits is seen to: the loop is among the handlers, from where it goes to the
-- functors, or the eventfd is set or about to be, or the functor was queued too early.
abbrev pub awake : EventLoop → Bool
awake s = at s handling || (is_empty s.functors || (s.early || ltb 0 (s.wakeups + s.wakers)))

-- A loop that has ended has been told to quit, and does not begin again.
abbrev pub over : EventLoop → Bool
over s =
    if at s leaving then s.quit else if at s outside then (s.iteration == 0 || s.quit) else true

-- A functor that was queued too early waits for the first turn, or for ever.
abbrev pub first_turn : EventLoop → Bool
first_turn s =
    not s.early
    || (s.iteration == 0 || ((at s handling && s.iteration == 1) || (at s outside && s.quit)))

-- calling_functors_ is set, and a functor of this turn waits, in ExecuteFunctors() only.
abbrev pub in_turn : EventLoop → Bool
in_turn s =
    if at s running then s.calling_functors else (not s.calling_functors && is_empty s.current)

abbrev pub sound : EventLoop → Bool
sound s = awake s && (in_turn s && (over s && first_turn s))

abbrev sound_after : Option EventLoop → Bool
sound_after none = true
sound_after (some s) = sound s

step-sound : (a : Action) (s : EventLoop) → sound s ≡ true → sound_after (step a s) ≡ true
unfolding step wake_up handle_wakeup_read queue_in_loop enter_loop test_quit poll_return
    swap_functors run_functor end_functors leave_loop quit_in_loop quit_elsewhere quit_wake
    quit_lock quit_check quit_sleep
step-sound enter s h = ground arith
step-sound test s h = ground arith
step-sound handle_wakeup s h = ground arith
step-sound swap s h = ground arith
step-sound run s h = ground arith
step-sound end s h = ground arith
step-sound leave s h = ground arith
step-sound (return other) s h = ground arith
step-sound (queue f) s h = ground arith
step-sound quit_here s h = ground arith
step-sound (push_elsewhere f) s h = ground arith
step-sound wake_elsewhere s h = ground arith
step-sound quit_there s h = ground arith
step-sound wake s h = ground arith
step-sound lock s h = ground arith
step-sound check s h = ground arith
step-sound sleep s h = ground arith

-- The functors that have run, those of this turn and those that wait are the ones queued, in order.
abbrev pub InOrder : EventLoop → Type 0
InOrder s = s.queued ≡ s.executed ++ (s.current ++ s.functors)

abbrev InOrderAfter : Option EventLoop → Type 0
InOrderAfter none = Unit
InOrderAfter (some s) = InOrder s

guard-InOrder : (b : Bool) (s : EventLoop) → InOrder s → InOrderAfter (guard b s)
guard-InOrder true s h = h
guard-InOrder false s h = tt

push-InOrder : (f : ℕ) (s : EventLoop) → InOrder s → InOrder (push f s)
push-InOrder f s h =
    ap (λ l. l ++ f ∷ []) h
    ∙ append_assoc s.executed (s.current ++ s.functors) (f ∷ [])
    ∙ ap (λ l. s.executed ++ l) (append_assoc s.current s.functors (f ∷ []))

queue_in_loop-InOrder : (f : ℕ) (s : EventLoop) → InOrder s → InOrder (queue_in_loop f s)
unfolding queue_in_loop wake_up
queue_in_loop-InOrder f s h = elim (Bool-cases s.calling_functors) [
  | inl on ↦ rw on (push-InOrder f s h)
  | inr off ↦ rw off (push-InOrder f s h)
]

swap_functors-InOrder :
    (s : EventLoop) → in_turn s ≡ true → InOrder s → InOrderAfter (swap_functors s)
unfolding swap_functors
swap_functors-InOrder s t h = elim (Bool-cases (at s handling)) [
  | inl on ↦
      let none_left : s.current ≡ [] = is_empty→nil s.current (ground arith) in
      guard-InOrder _ _ (
        h
        ∙ ap (λ l. s.executed ++ (l ++ s.functors)) none_left
        ∙ ap (λ l. s.executed ++ l) (sym (append-nil s.functors)))
  | inr off ↦ rw off tt
]

run_first-InOrder :
    (fs : List ℕ) (s : EventLoop) → s.current ≡ fs → InOrder s → InOrderAfter (run_first fs s)
run_first-InOrder [] s e h = tt
run_first-InOrder (f ∷ fs) s e h = elim (Bool-cases (at s running)) [
  | inl on ↦ rw on (
      h
      ∙ ap (λ l. s.executed ++ (l ++ s.functors)) e
      ∙ sym (append_assoc s.executed (f ∷ []) (fs ++ s.functors)))
  | inr off ↦ rw off tt
]

run_functor-InOrder : (s : EventLoop) → InOrder s → InOrderAfter (run_functor s)
unfolding run_functor
run_functor-InOrder s h = run_first-InOrder s.current s refl h

step-InOrder : (a : Action) (s : EventLoop) → in_turn s ≡ true → InOrder s → InOrderAfter (step a s)
unfolding step wake_up handle_wakeup_read enter_loop test_quit poll_return end_functors leave_loop
    quit_in_loop quit_elsewhere quit_wake quit_lock quit_check quit_sleep
step-InOrder enter s t h = ground arith
step-InOrder test s t h = ground arith
step-InOrder handle_wakeup s t h = guard-InOrder _ _ h
step-InOrder swap s t h = swap_functors-InOrder s t h
step-InOrder run s t h = run_functor-InOrder s h
step-InOrder end s t h = guard-InOrder _ _ h
step-InOrder leave s t h = guard-InOrder _ _ h
step-InOrder (return other) s t h = guard-InOrder _ _ h
step-InOrder (queue f) s t h = guard-InOrder _ _ (queue_in_loop-InOrder f s h)
step-InOrder quit_here s t h = ground arith
step-InOrder (push_elsewhere f) s t h = guard-InOrder _ _ (push-InOrder f s h)
step-InOrder wake_elsewhere s t h = guard-InOrder _ _ h
step-InOrder quit_there s t h = ground arith
step-InOrder wake s t h = guard-InOrder _ _ h
step-InOrder lock s t h = guard-InOrder _ _ h
step-InOrder check s t h = guard-InOrder _ _ h
step-InOrder sleep s t h = guard-InOrder _ _ h

-- What every action of every thread keeps.
pub record IsValid (s : EventLoop) : Type 0 where
  pub is_sound : sound s ≡ true
  pub in_order : InOrder s

step-IsValid : (a : Action) (s s₁ : EventLoop) → step a s ≡ some s₁ → IsValid s → IsValid s₁
step-IsValid a s s₁ e v = record {
  is_sound = subst (λ r. sound_after r ≡ true) e (step-sound a s v.is_sound);
  in_order = subst InOrderAfter e (step-InOrder a s (ground (arith, v.is_sound)) v.in_order);
}

pub Run-IsValid : {acts : List Action} {s s' : EventLoop} → Run s acts s' → IsValid s → IsValid s'
Run-IsValid r v = Run-keeps IsValid step-IsValid r v

pub init-IsValid : IsValid init
unfolding init
init-IsValid = record { is_sound = refl; in_order = refl }

-- Whatever the threads do, the functors that have run, the ones of this turn and the ones that
-- wait are, in this order, those that were given to QueueInLoop(): each runs once, in its turn.
pub run-InOrder :
    {acts : List Action} {s : EventLoop}
    → Run init acts s
    → s.queued ≡ s.executed ++ (s.current ++ s.functors)
run-InOrder r = (Run-IsValid r init-IsValid).in_order
