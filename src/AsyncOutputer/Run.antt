-- ===== src/AsyncOutputer/Run.antt =====
-- The actions of the threads of an AsyncOutputer, and the runs that they make.
use muzi.Prelude.{ℕ, ◌≡◌, List, [], ◌∷◌, Option, some}
use muzi.AsyncOutputer.{
  AsyncOutputer, start as start_thread, stop, flush, output, test, lock, wake, write,
}

pub data Action : Type 0 where
  call_start call_stop call_flush test_loop lock_mutex wake_up write_out : Action
  call_output : List ℕ → Action

unfoldable pub step : Action → AsyncOutputer → Option AsyncOutputer
step call_start s = start_thread s
step call_stop s = stop s
step call_flush s = flush s
step (call_output msg) s = output msg s
step test_loop s = test s
step lock_mutex s = lock s
step wake_up s = wake s
step write_out s = write s

pub data Run : AsyncOutputer → List Action → AsyncOutputer → Type 0 where
  done : (s : AsyncOutputer) → Run s [] s
  after :
      {s s₁ s₂ : AsyncOutputer} (a : Action) {acts : List Action}
      → step a s ≡ some s₁
      → Run s₁ acts s₂
      → Run s (a ∷ acts) s₂

-- What every action keeps, a run keeps.
pub Run-keeps {ℓ} :
    (P : AsyncOutputer → Type ℓ)
    → ((a : Action) (s s₁ : AsyncOutputer) → step a s ≡ some s₁ → P s → P s₁)
    → {acts : List Action} {s s' : AsyncOutputer} → Run s acts s'
    → P s
    → P s'
Run-keeps P keep (done s) h = h
Run-keeps P keep (after a e rest) h = Run-keeps P keep rest (keep a _ _ e h)
