-- ===== src/EventLoopThreadPool/Examples.antt =====
-- Tests of the pool of loops, and its theorems at concrete pools.
use muzi.Prelude.{ℕ, ◌+◌, ◌≡◌, refl, true, [], ◌∷◌, some}
use muzi.EventLoopThreadPool.{
  EventLoopThreadPool, given, moved, init, get_loop_for_hash, get_all_loops,
}

abbrev loop_of : ℕ → ℕ
loop_of i = 100 + i

abbrev running : EventLoopThreadPool
running = record (init 7 3) {
  started = true;
  threads = given ∷ moved ∷ moved ∷ [];
  event_loops = 100 ∷ 101 ∷ 102 ∷ [];
}

get_loop_for_hash-running : get_loop_for_hash 11 running ≡ some 102
unfolding get_loop_for_hash init
get_loop_for_hash-running = refl

get_all_loops-running : get_all_loops running ≡ some (100 ∷ 101 ∷ 102 ∷ [])
unfolding get_all_loops init
get_all_loops-running = refl
