-- ===== src/AsyncOutputer/Progress.antt =====
-- Every action whose thread stands at its place can be taken.
use mathlib.Core.Path.{subst}
use muzi.Prelude.{
  ◌≡◌, refl, Bool, true, false, not, List, Option, none, some, arith, length, ltb, Bool-cases, inl,
  inr,
}
use muzi.FixedBuffer.{init as new_buffer}
use muzi.LogStream.{small_buff_size}
use muzi.AsyncOutputer.{
  AsyncOutputer, init, idle, testing, locking, waiting, writing, at, start, stop, flush, output,
  test, collect, lock, wake, write,
}
use muzi.AsyncOutputer.Run.{
  Action, call_start, call_stop, call_flush, call_output, test_loop, lock_mutex, wake_up, write_out,
  step, Run, Run-keeps,
}
use muzi.AsyncOutputer.Buffers.{
  sound, sound_next, flush_from-sound, output_to-sound, collect_from-sound, write-sound,
}

-- The thread of an action stands where the action begins.
abbrev pub due : Action → AsyncOutputer → Bool
due call_start s = at s idle
due call_stop s = not (at s idle)
due call_flush s = true
due (call_output msg) s = ltb (length msg) small_buff_size
due test_loop s = at s testing
due lock_mutex s = at s locking
due wake_up s = at s waiting
due write_out s = at s writing

abbrev sound_after : Option AsyncOutputer → Bool
sound_after none = true
sound_after (some s) = sound s

next→after : (r : Option AsyncOutputer) → sound_next r ≡ true → sound_after r ≡ true
next→after none h = refl
next→after (some s) h = h

pub step-due-sound :
    (a : Action) (s : AsyncOutputer)
    → due a s ≡ true
    → sound s ≡ true
    → sound_next (step a s) ≡ true
unfolding step start stop flush output test lock wake collect
step-due-sound call_start s d h = ground (arith, d, h)
step-due-sound call_stop s d h = ground (arith, d, h)
step-due-sound call_flush s d h = flush_from-sound s.current_buffer s refl h
step-due-sound (call_output msg) s d h =
    rw d (output_to-sound msg s.current_buffer s refl (ground arith) h)
step-due-sound test_loop s d h = ground (arith, d, h)
step-due-sound lock_mutex s d h =
    let c = collect_from-sound s.current_buffer s refl (ground (arith, d)) h in
    ground (arith, d, h, c)
step-due-sound wake_up s d h =
    rw d (collect_from-sound s.current_buffer s refl (ground (arith, d)) h)
step-due-sound write_out s d h = write-sound s d h

step_not_due : (a : Action) (s : AsyncOutputer) → due a s ≡ false → step a s ≡ none
unfolding step start stop flush output test lock wake write
step_not_due call_start s d = rw d refl
step_not_due call_stop s d = rw d refl
step_not_due call_flush s d = cc
step_not_due (call_output msg) s d = rw d refl
step_not_due test_loop s d = rw d refl
step_not_due lock_mutex s d = rw d refl
step_not_due wake_up s d = rw d refl
step_not_due write_out s d = rw d refl

step-sound : (a : Action) (s : AsyncOutputer) → sound s ≡ true → sound_after (step a s) ≡ true
step-sound a s h = elim (Bool-cases (due a s)) [
  | inl on ↦ next→after (step a s) (step-due-sound a s on h)
  | inr off ↦ rw (step_not_due a s off) refl
]

pub step-sound-some :
    (a : Action) (s s₁ : AsyncOutputer) → step a s ≡ some s₁ → sound s ≡ true → sound s₁ ≡ true
step-sound-some a s s₁ e h = subst (λ r. sound_after r ≡ true) e (step-sound a s h)

pub Run-sound_at : {acts : List Action} {s : AsyncOutputer} → Run init acts s → sound s ≡ true
unfolding init new_buffer
Run-sound_at r = Run-keeps (λ q. sound q ≡ true) step-sound-some r refl

pub taken : (r : Option AsyncOutputer) → sound_next r ≡ true → (s' : AsyncOutputer) × (r ≡ some s')
taken none h = absurd (ground arith)
taken (some s) h = (s, refl)

-- However the threads take turns, every action whose thread stands where it begins can be taken:
-- no null pointer to a buffer is used, and there are buffers enough to recycle.
pub step-due :
    {acts : List Action} {s : AsyncOutputer} (a : Action)
    → Run init acts s
    → due a s ≡ true
    → (s' : AsyncOutputer) × (step a s ≡ some s')
step-due {s = s} a r d = taken (step a s) (step-due-sound a s d (Run-sound_at r))
