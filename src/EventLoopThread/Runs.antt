-- ===== src/EventLoopThread/Runs.antt =====
-- The runs of the thread and its owner, and what always holds of looping_ and loop_.
use mathlib.Core.Path.{subst}
use muzi.Prelude.{
  ◌≡◌, refl, Bool, true, false, not, ◌&&◌, List, [], ◌∷◌, Option, none, some, arith, if◌then◌else◌,
}
use muzi.EventLoopThread.{
  Runner, unborn, calling_back, entering, running, notifying, ending, gone, Owner, idle, waiting,
  stopped, is_quitting, EventLoopThread, init, run_thread, start_loop, call_quit, stop,
}

pub data Action : Type 0 where
  thread_runs owner_starts owner_stops : Action

unfoldable pub step : Action → EventLoopThread → Option EventLoopThread
step thread_runs s = run_thread s s.runner
step owner_starts s = start_loop s s.owner
step owner_stops s = stop s s.owner

pub data Run : EventLoopThread → List Action → EventLoopThread → Type 0 where
  done : (s : EventLoopThread) → Run s [] s
  after :
      {s s₁ s₂ : EventLoopThread} (a : Action) {acts : List Action}
      → step a s ≡ some s₁
      → Run s₁ acts s₂
      → Run s (a ∷ acts) s₂

abbrev pub is_running : Runner → Bool
is_running running = true
is_running _ = false

-- loop_ is set from before the callback to behind Loop().
abbrev pub has_loop : Runner → Bool
has_loop calling_back = true
has_loop entering = true
has_loop running = true
has_loop notifying = true
has_loop ending = true
has_loop _ = false

abbrev pub same : Bool → Bool → Bool
same a b = if a then b else not b

abbrev pub is_unborn : Runner → Bool
is_unborn unborn = true
is_unborn _ = false

abbrev pub is_idle : Owner → Bool
is_idle idle = true
is_idle _ = false

-- Where the owner may stand once quit_ is set.
abbrev pub asked : Runner → Owner → Bool
asked running o = is_quitting o
asked notifying waiting = true
asked notifying o = is_quitting o
asked ending waiting = true
asked ending o = is_quitting o
asked gone waiting = true
asked gone stopped = true
asked _ _ = false

-- looping_ and loop_ say where the thread stands, and quit_ is set for a loop that has begun.
abbrev pub in_step : EventLoopThread → Bool
in_step s =
    same s.looping (is_running s.runner)
    && (same s.loop (has_loop s.runner)
        && ((if s.quit then asked s.runner s.owner else not (is_quitting s.owner))
            && (if is_idle s.owner then is_unborn s.runner else true)))

abbrev in_step_after : Option EventLoopThread → Bool
in_step_after none = true
in_step_after (some s) = in_step s

step-in_step :
    (a : Action) (s : EventLoopThread) → in_step s ≡ true → in_step_after (step a s) ≡ true
unfolding step run_thread start_loop stop call_quit
step-in_step thread_runs s h = ground (arith, h)
step-in_step owner_starts s h = ground (arith, h)
step-in_step owner_stops s h = ground (arith, h)

pub keeps :
    {s s' : EventLoopThread} {acts : List Action}
    → Run s acts s'
    → in_step s ≡ true
    → in_step s' ≡ true
keeps (done s) h = h
keeps (after {s} a e rest) h =
    keeps rest (subst (λ o. in_step_after o ≡ true) e (step-in_step a s h))

-- Whatever the owner and the thread do, looping_ is set exactly while the thread is in Loop(), and
-- loop_ from before its callback to behind Loop().
pub Run-in_step :
    {acts : List Action} {s : EventLoopThread}
    → Run init acts s
    → (s.looping ≡ is_running s.runner) × (s.loop ≡ has_loop s.runner)
Run-in_step r = let h = keeps r refl in (ground (arith, h), ground (arith, h))
