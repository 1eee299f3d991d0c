-- ===== src/ThreadPool/Run.antt =====
-- The actions of the threads of a pool, and the runs that they make.
use muzi.Prelude.{ℕ, ◌+◌, ◌-◌, ◌≡◌, Bool, true, false, ◌&&◌, List, [], ◌∷◌, Option, some, ltb}
use muzi.ThreadPool.{
  ThreadPool, guard, start, test_running, first_take, woken_take, notify_full, end_task, call_run,
  first_push, unblocked_push, notify_empty, stop, stop_empty, stop_full, stop_join,
}

pub data Action : Type 0 where
  start_with : ℕ → Action
  test take retake notify_one_full end spurious : Action
  call notify_one_empty : Action
  push repush : ℕ → Action
  call_stop all_empty all_full join : Action

-- `spurious` is a Wait() of a worker that returns without a notification.
unfoldable pub step : Action → ThreadPool → Option ThreadPool
step (start_with n) p = start n p
step test p = test_running p
step take p = first_take p
step retake p = woken_take p
step notify_one_full p = notify_full p
step end p = end_task p
step spurious p = guard (ltb 0 p.asleep) (record p { asleep = p.asleep - 1; woken = p.woken + 1 })
step call p = some (call_run p)
step notify_one_empty p = notify_empty p
step (push t) p = first_push t p
step (repush t) p = unblocked_push t p
step call_stop p = some (stop p)
step all_empty p = stop_empty p
step all_full p = stop_full p
step join p = stop_join p

-- The run has no spurious wake-up.
abbrev pub expected : Action → Bool
expected spurious = false
expected _ = true

abbrev pub all_expected : List Action → Bool
all_expected [] = true
all_expected (a ∷ acts) = expected a && all_expected acts

pub data Run : ThreadPool → List Action → ThreadPool → Type 0 where
  done : (p : ThreadPool) → Run p [] p
  after :
      {p p₁ p₂ : ThreadPool} (a : Action) {acts : List Action}
      → step a p ≡ some p₁
      → Run p₁ acts p₂
      → Run p (a ∷ acts) p₂

-- What every action keeps, a run keeps.
pub Run-keeps {ℓ} :
    (P : ThreadPool → Type ℓ)
    → ((a : Action) (p p₁ : ThreadPool) → step a p ≡ some p₁ → P p → P p₁)
    → {acts : List Action} {p p' : ThreadPool} → Run p acts p'
    → P p
    → P p'
Run-keeps P keep (done p) h = h
Run-keeps P keep (after a e rest) h = Run-keeps P keep rest (keep a _ _ e h)
