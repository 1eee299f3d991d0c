-- ===== src/AsyncOutputer/Ending.antt =====
-- Once Stop() has been called the writing thread ends by its own actions, within two turns.
use mathlib.Core.Path.{subst}
use muzi.Prelude.{
  ℕ, zero, suc, ◌+◌, ◌-◌, ◌≤◌, ◌≡◌, refl, Bool, true, false, not, ◌&&◌, List, [], ◌∷◌, ◌++◌, Option,
  none, some, arith, length, ltb, if◌then◌else◌, Bool-cases, inl, inr,
}
use muzi.FixedBuffer.{FixedBuffer}
use muzi.AsyncOutputer.{
  AsyncOutputer, Phase, init, same_phase, idle, testing, locking, waiting, writing, ended, at, test,
  collect_from, collect, lock, wake, back, pop_back, bytes_of, cut_down, recycle, write,
}
use muzi.AsyncOutputer.Run.{
  Action, call_start, test_loop, lock_mutex, wake_up, write_out, step, Run, done, after,
}
use muzi.AsyncOutputer.Buffers.{sound}
use muzi.AsyncOutputer.Progress.{due, step-sound-some, Run-sound_at, taken, step-due-sound}

-- The writing thread's next action, and a bound on the number of actions to its end.
abbrev pub turn : Phase → Action
turn idle = call_start
turn testing = test_loop
turn locking = lock_mutex
turn waiting = wake_up
turn writing = write_out
turn ended = test_loop

abbrev pub from_end : Phase → ℕ
from_end idle = 0
from_end testing = 1
from_end locking = 4
from_end waiting = 3
from_end writing = 2
from_end ended = 0

abbrev pub left : AsyncOutputer → ℕ
left s = from_end s.phase + (if s.last_write then 4 else 0)

-- The thread is up, Stop() has been called, and fewer than `n` actions are left.
abbrev closer : ℕ → AsyncOutputer → Bool
closer n s = (not s.running && not (at s idle)) && ltb (left s) n

abbrev closer_after : ℕ → Option AsyncOutputer → Bool
closer_after n none = true
closer_after n (some s) = closer n s

collect_from-closer :
    (o : Option FixedBuffer) (s : AsyncOutputer) (n : ℕ)
    → s.running ≡ false
    → ltb (left (record s { phase = writing })) n ≡ true
    → closer_after n (collect_from o s) ≡ true
collect_from-closer none s n r h = refl
collect_from-closer (some b) s n r h = ground (arith, h)

recycle-closer :
    (o c : Option FixedBuffer) (s : AsyncOutputer) (n : ℕ)
    → closer n s ≡ true
    → closer_after n (recycle o c s) ≡ true
recycle-closer none c s n h = refl
recycle-closer (some x) none s n h = ground arith
recycle-closer (some x) (some y) s n h = ground arith

-- Every action of the thread brings it closer to its end.
step-closer :
    (s : AsyncOutputer)
    → s.running ≡ false
    → at s idle ≡ false
    → at s ended ≡ false
    → closer_after (left s) (step (turn s.phase) s) ≡ true
unfolding step test lock wake collect write
step-closer s r i e = by_phase s.phase refl
  where
    by_phase : (p : Phase) → s.phase ≡ p → closer_after (left s) (step (turn p) s) ≡ true
    by_phase idle q = absurd (ground (arith, q, i))
    by_phase testing q = ground (arith, q, r)
    by_phase locking q =
        let c = collect_from-closer s.current_buffer s (left s) r (ground (arith, q)) in
        ground (arith, q, r, c)
    by_phase waiting q =
        let c = collect_from-closer s.current_buffer s (left s) r (ground (arith, q)) in
        ground (arith, q, r, c)
    by_phase writing q =
        let kept = cut_down 25 s.buffers_to_write in
        let c =
          recycle-closer (back (cut_down 2 kept)) (back (pop_back (cut_down 2 kept)))
            (record s {
              phase = testing;
              buffers_to_write = [];
              written = s.written ++ bytes_of kept;
              dropped = s.dropped + (length s.buffers_to_write - length kept);
            })
            (left s) (ground (arith, q, r)) in
        ground (arith, c)
    by_phase ended q = absurd (ground (arith, q, e))

turn-due : (s : AsyncOutputer) → at s ended ≡ false → due (turn s.phase) s ≡ true
turn-due s e = by_phase s.phase refl
  where
    by_phase : (p : Phase) → s.phase ≡ p → due (turn p) s ≡ true
    by_phase idle q = ground (arith, q)
    by_phase testing q = ground (arith, q)
    by_phase locking q = ground (arith, q)
    by_phase waiting q = ground (arith, q)
    by_phase writing q = ground (arith, q)
    by_phase ended q = absurd (ground (arith, q, e))

-- Actions of the writing thread only.
abbrev pub own : Action → Bool
own test_loop = true
own lock_mutex = true
own wake_up = true
own write_out = true
own _ = false

abbrev pub all_own : List Action → Bool
all_own [] = true
all_own (a ∷ acts) = own a && all_own acts

turn-own : (p : Phase) → same_phase p idle ≡ false → own (turn p) ≡ true
turn-own idle h = cc
turn-own testing h = refl
turn-own locking h = refl
turn-own waiting h = refl
turn-own writing h = refl
turn-own ended h = refl

-- The runs of the thread alone by which it ends, of at most `n` actions.
abbrev pub Ends : ℕ → AsyncOutputer → Type 0
Ends n s =
    (acts : List Action) × (s' : AsyncOutputer) × Run s acts s'
    × (all_own acts ≡ true)
    × (length acts ≤ n)
    × (at s' ended ≡ true)

reaches_end :
    (n : ℕ) (s : AsyncOutputer)
    → sound s ≡ true
    → s.running ≡ false
    → at s idle ≡ false
    → left s ≤ n
    → Ends n s
reaches_end zero s v r i h = elim (Bool-cases (at s ended)) [
  | inl e ↦ ([], s, done s, refl, omega arith, e)
  | inr e ↦ absurd (some_left s.phase refl e)
]
  where
    some_left : (p : Phase) → s.phase ≡ p → at s ended ≡ false → ⊥
    some_left idle q e = ground (arith, q)
    some_left testing q e = ground (arith, q)
    some_left locking q e = ground (arith, q)
    some_left waiting q e = ground (arith, q)
    some_left writing q e = ground (arith, q)
    some_left ended q e = ground (arith, q)
reaches_end (suc n) s v r i h = elim (Bool-cases (at s ended)) [
  | inl e ↦ ([], s, done s, refl, omega arith, e)
  | inr e ↦
      let a = turn s.phase in
      let (s₁, d) = taken (step a s) (step-due-sound a s (turn-due s e) v) in
      let c : closer (left s) s₁ ≡ true =
        subst (λ x. closer_after (left s) x ≡ true) d (step-closer s r i e) in
      let (acts, s', rest, mine, short, end) =
        reaches_end n s₁ (step-sound-some a s s₁ d v) (ground (arith, c)) (ground (arith, c))
          (ground (arith, c)) in
      (
        a ∷ acts,
        s',
        after {s₂ = s'} a {acts = acts} d rest,
        rw (turn-own s.phase i, mine) refl,
        omega arith,
        end,
      )
]

-- Once running_ is cleared, the writing thread ends by at most eight actions of its own, wherever it
-- stands and whatever has happened, if its waits return: Stop() comes back from Join().
pub ends :
    {acts : List Action} {s : AsyncOutputer}
    → Run init acts s
    → s.running ≡ false
    → at s idle ≡ false
    → Ends 8 s
ends {s = s} r down up = reaches_end 8 s (Run-sound_at r) down up (few s.phase refl)
  where
    few : (p : Phase) → s.phase ≡ p → left s ≤ 8
    few idle q = ground (arith, q)
    few testing q = ground (arith, q)
    few locking q = ground (arith, q)
    few waiting q = ground (arith, q)
    few writing q = ground (arith, q)
    few ended q = ground (arith, q)
