-- ===== src/EventLoopThreadPool/Rounds.antt =====
-- The loops are dealt out in turn, and every thread is started once.
use muzi.Prelude.{
  is_empty, ℕ, zero, suc, ◌+◌, ◌%◌, ◌<◌, ◌≡◌, refl, sym, ap, ◌∙◌, Bool, true, false, List, [], ◌∷◌,
  ◌++◌, none, some, arith, length, get_or, replicate, ltb, lt→ltb, ◌==◌, ◌&&◌,
}
use mathlib.Core.List.{append-nil, append_assoc}
use native.Mathlib.Nat.{mod-add-mod, mod-lt}
use muzi.EventLoopThreadPool.{
  Callback, given, moved, EventLoopThreadPool, init, start_threads, start, get_next_loop,
}

-- The results of `loop_of` from `i` on.
abbrev pub loops_from : (ℕ → ℕ) → ℕ → ℕ → List ℕ
loops_from loop_of zero i = []
loops_from loop_of (suc n) i = loop_of i ∷ loops_from loop_of n (suc i)

abbrev pub callbacks_from : Callback → ℕ → List Callback
callbacks_from k zero = []
callbacks_from k (suc n) = k ∷ replicate n moved

moved_again : (n : ℕ) → callbacks_from moved n ≡ replicate n moved
moved_again zero = refl
moved_again (suc n) = refl

start_threads_lem :
    (loop_of : ℕ → ℕ) (n i : ℕ) (k : Callback) (p : EventLoopThreadPool)
    → start_threads loop_of n i k p ≡ record p {
      threads = p.threads ++ callbacks_from k n;
      event_loops = p.event_loops ++ loops_from loop_of n i;
    }
unfolding start_threads
start_threads_lem loop_of zero i k p =
    ap (λ ts. record p { threads = ts }) (sym (append-nil p.threads))
    ∙ ap (λ ls. record p { threads = p.threads ++ []; event_loops = ls })
        (sym (append-nil p.event_loops))
start_threads_lem loop_of (suc n) i k p =
    start_threads_lem loop_of n (suc i) moved _
    ∙ ap
        (λ ts. record p {
          threads = ts;
          event_loops = (p.event_loops ++ loop_of i ∷ []) ++ loops_from loop_of n (suc i);
        })
        (append_assoc p.threads (k ∷ []) (callbacks_from moved n)
          ∙ ap (λ l. p.threads ++ k ∷ l) (moved_again n))
    ∙ ap (λ ls. record p { threads = p.threads ++ callbacks_from k (suc n); event_loops = ls })
        (append_assoc p.event_loops (loop_of i ∷ []) (loops_from loop_of n (suc i)))

-- Start() of a new pool starts its threads, each with its loop; only the first one gets the
-- callback, and the base loop gets it if there are no threads.
pub start_lem :
    (loop_of : ℕ → ℕ) (base n : ℕ) (has_callback : Bool)
    → start loop_of has_callback (init base n)
      ≡ some (record (init base n) {
        started = true;
        threads = callbacks_from given n;
        event_loops = loops_from loop_of n 0;
        called_on_base = (n == 0) && has_callback;
      })
unfolding start init
start_lem loop_of base n has_callback = rw (start_threads_lem loop_of n 0 given (init base n)) refl

-- The results of `m` calls of GetNextLoop() in a row, up to the first that fails.
abbrev pub dealt : ℕ → EventLoopThreadPool → List ℕ
dealt zero p = []
dealt (suc m) p = elim (get_next_loop p) [ none ↦ [] | some r ↦ r.0 ∷ dealt m r.1 ]

not_empty : (xs : List ℕ) → 0 < length xs → is_empty xs ≡ false
not_empty [] h = absurd (omega arith)
not_empty (x ∷ xs) h = refl

next_lem :
    (p : EventLoopThreadPool)
    → p.started ≡ true
    → is_empty p.event_loops ≡ false
    → ltb p.next (length p.event_loops) ≡ true
    → get_next_loop p
      ≡ some (
        get_or p.event_loops p.next p.base_loop,
        record p { next = (p.next + 1) % p.thread_nums },
      )
unfolding get_next_loop
next_lem p s e r = ground (arith, s, e, r)

-- Calls of GetNextLoop() on a started pool with threads, each with its loop, deal the loops out in turn: the call
-- behind `k` others since the start returns the loop `k` modulo the number of threads.
pub get_next_loop_lem :
    (m k : ℕ) (p : EventLoopThreadPool)
    → p.started ≡ true
    → length p.event_loops ≡ p.thread_nums
    → 0 < p.thread_nums
    → p.next ≡ k % p.thread_nums
    → dealt m p ≡ loops_from (λ j. get_or p.event_loops (j % p.thread_nums) p.base_loop) m k
get_next_loop_lem zero k p s e z h = refl
get_next_loop_lem (suc m) k p s e z h =
    let in_range : p.next < length p.event_loops = omega (arith, h, mod-lt k z) in
    let q = record p { next = (p.next + 1) % p.thread_nums } in
    let next : q.next ≡ suc k % p.thread_nums =
      ap (λ x. (x + 1) % p.thread_nums) h
      ∙ mod-add-mod k p.thread_nums 1
      ∙ ap (λ x. x % p.thread_nums) (omega arith) in
    let first : get_or p.event_loops p.next p.base_loop
        ≡ get_or p.event_loops (k % p.thread_nums) p.base_loop =
      ap (λ x. get_or p.event_loops x p.base_loop) h in
    rw
      (
        dealt,
        next_lem p s (not_empty p.event_loops (omega arith)) (lt→ltb _ _ in_range),
        get_next_loop_lem m (suc k) q s e z next,
      )
      (ap
        (λ x. x ∷ loops_from (λ j. get_or p.event_loops (j % p.thread_nums) p.base_loop) m (suc k))
        first)
