-- ===== src/EventLoop/Wakeup.antt =====
-- The loop wakes up for a functor that waits, and runs it.
use mathlib.Core.List.{append-nil, append_assoc}
use muzi.Prelude.{
  ℕ, ◌+◌, ◌<◌, ◌≡◌, ◌≢◌, refl, sym, ap, ◌∙◌, true, false, not, List, [], ◌∷◌, ◌++◌, some, arith,
  lt→ltb, ◌⊎◌, inl, inr, Bool-cases, length, replicate, is_empty→nil,
}
use muzi.EventLoop.{
  EventLoop, init, polling, handling, running, guard, at, locked, handle_wakeup_read, poll_return,
  swap_functors, run_first, run_functor,
}
use muzi.EventLoop.Run.{Action, handle_wakeup, swap, run, return, step, Run, done, after}
use muzi.EventLoop.Queue.{IsValid, Run-IsValid, init-IsValid}

-- However the threads take turns, while the loop sleeps in Poll() and a functor waits, the eventfd
-- is set or a thread is about to set it, unless this is the first call of Poll() and the loop's
-- thread has called QueueInLoop() before Loop().
pub polling_lem :
    {acts : List Action} {s : EventLoop}
    → Run init acts s
    → at s polling ≡ true
    → s.functors ≢ []
    → (0 < s.wakeups + s.wakers) ⊎ ((s.early ≡ true) × (s.iteration ≡ 0))
polling_lem {s = s} r p waits =
    let v = (Run-IsValid r init-IsValid).is_sound in
    elim (Bool-cases s.early) [
      | inl on ↦ inr (on, ground (arith, v, p, on))
      | inr off ↦ inl (ground (arith, v, waits, off))
    ]

-- The rest of a turn runs the functors that are left of it.
run_all :
    (fs : List ℕ) (s : EventLoop)
    → at s running ≡ true
    → s.current ≡ fs
    → (s' : EventLoop) × Run s (replicate (length fs) run) s' × (s'.executed ≡ s.executed ++ fs)
unfolding step run_functor
run_all [] s on e = (s, done s, sym (append-nil s.executed))
run_all (f ∷ fs) s on e =
    let s₁ = record s { current = fs; executed = s.executed ++ f ∷ [] } in
    let (s', rest, ran) = run_all fs s₁ on refl in
    (
      s',
      after run (ap (λ l. run_first l s) e ∙ ap (λ b. guard b s₁) on) rest,
      ran ∙ append_assoc s.executed (f ∷ []) fs,
    )

-- A loop that sleeps while functors wait, with the eventfd set and lock_ free, wakes up by its own
-- actions and runs all of them.
pub wakes :
    (s : EventLoop)
    → IsValid s
    → at s polling ≡ true
    → 0 < s.wakeups
    → locked s ≡ false
    → (s' : EventLoop) × Run s
        (return false ∷ handle_wakeup ∷ swap ∷ replicate (length s.functors) run)
        s'
      × (s'.executed ≡ s.queued)
unfolding step poll_return handle_wakeup_read swap_functors
wakes s v p w free =
    let s₁ = record s { phase = handling; woken = true; iteration = s.iteration + 1 } in
    let s₂ = record s₁ { wakeups = 0; woken = false } in
    let s₃ = record s₂ {
      calling_functors = true;
      phase = running;
      current = s.functors;
      functors = [];
      early = false;
    } in
    let (s', rest, ran) = run_all s.functors s₃ refl refl in
    let wakes_up : step (return false) s ≡ some s₁ = rw (p, lt→ltb 0 s.wakeups w) refl in
    let swaps : step swap s₂ ≡ some s₃ = ap (λ b. guard (not b) s₃) free in
    let done_before : s.current ≡ [] = is_empty→nil s.current (ground (arith, v.is_sound)) in
    (
      s',
      after (return false) wakes_up (after handle_wakeup refl (after swap swaps rest)),
      ran ∙ sym (v.in_order ∙ ap (λ l. s.executed ++ (l ++ s.functors)) done_before),
    )
