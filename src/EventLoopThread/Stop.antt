-- ===== src/EventLoopThread/Stop.antt =====
-- The end of Stop(), and where it does not come.
use mathlib.Core.Path.{subst}
use muzi.Prelude.{
  ◌≡◌, ◌⊎◌, inl, inr, refl, sym, ap, ◌∙◌, Bool, true, false, not, ◌&&◌, ◌||◌, List, Option, none,
  some, arith, Bool-cases,
}
use muzi.EventLoopThread.{
  Runner, calling_back, entering, ending, Owner, waiting, is_quitting, EventLoopThread, init,
  run_thread, start_loop, stop,
}
use muzi.EventLoopThread.Runs.{
  thread_runs, owner_starts, owner_stops, Action, step, Run, done, after, is_running, has_loop,
  asked, keeps,
}
use muzi.EventLoopThread.Ends.{Ends, lost, asked_to_end, asked_to_end-Ends}

not_lost-Ends :
    {acts : List Action} {s : EventLoopThread}
    → Run init acts s
    → s.quit ≡ true
    → lost s ≡ false
    → Ends s
not_lost-Ends {s = s} r q l =
    let h = keeps r refl in
    let a : asked s.runner s.owner ≡ true = ground (arith, h, q) in
    let loops : has_loop s.runner ≡ s.loop = ground (arith, h) in
    let runs : is_running s.runner ≡ s.looping = ground (arith, h) in
    let at : Bool → Bool → Bool → EventLoopThread =
      λ l g b. record { runner = s.runner; owner = s.owner; loop = l; looping = g; quit = b } in
    let same_state : asked_to_end s.runner s.owner ≡ s =
      ap (λ l. at l (is_running s.runner) true) loops
      ∙ ap (λ g. at s.loop g true) runs
      ∙ ap (at s.loop s.looping) (sym q) in
    subst Ends same_state (asked_to_end-Ends s.runner s.owner a l)

abbrev lost_after : Option EventLoopThread → Bool
lost_after none = true
lost_after (some s) = lost s

step-lost : (a : Action) (s : EventLoopThread) → lost s ≡ true → lost_after (step a s) ≡ true
unfolding step run_thread start_loop stop
step-lost thread_runs s h = ground (arith, h)
step-lost owner_starts s h = ground (arith, h)
step-lost owner_stops s h = ground (arith, h)

Run-lost :
    {s s' : EventLoopThread} {acts : List Action} → Run s acts s' → lost s ≡ true → lost s' ≡ true
Run-lost (done s) h = h
Run-lost (after {s} a e rest) h =
    Run-lost rest (subst (λ o. lost_after o ≡ true) e (step-lost a s h))

-- Once Stop() has set quit_ it can end, and the thread with it, within six actions of the two, exactly
-- if the loop's NotifyAll() has not come between the test of looping_ in Quit() and its Wait(). If it
-- has, then in every later state the owner is still in Quit(), with lock_ held, and the thread has not
-- ended, unless a Wait() returns without a notification.
pub quit-Ends :
    {acts acts' : List Action} {s s' : EventLoopThread}
    → Run init acts s
    → s.quit ≡ true
    → Run s acts' s'
    → ((lost s ≡ false) × Ends s)
      ⊎ ((lost s ≡ true) × (is_quitting s'.owner ≡ true) × (s'.runner ≡ ending))
quit-Ends {s = s} r q rest = elim (Bool-cases (lost s)) [
  | inr off ↦ inl (off, not_lost-Ends r q off)
  | inl on ↦ let l = Run-lost rest on in inr (on, ground (arith, l), ground (arith, l))
]

abbrev is_waiting : Owner → Bool
is_waiting waiting = true
is_waiting _ = false

abbrev before_loop : Runner → Bool
before_loop calling_back = true
before_loop entering = true
before_loop _ = false

-- An owner that waits for a thread which is not asked to quit.
abbrev hangs : EventLoopThread → Bool
hangs s =
    (before_loop s.runner || is_running s.runner) && (s.loop && (not s.quit && is_waiting s.owner))

abbrev hangs_after : Option EventLoopThread → Bool
hangs_after none = true
hangs_after (some s) = hangs s
