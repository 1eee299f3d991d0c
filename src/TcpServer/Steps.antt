-- ===== src/TcpServer/Steps.antt =====
-- Every action keeps what holds of each connection.
use mathlib.Core.Path.{subst}
use muzi.Prelude.{
  ℕ, zero, suc, ◌≡◌, refl, Bool, true, ◌&&◌, List, [], ◌∷◌, ◌++◌, Option, none, some, arith, ltb,
  Bool-cases, inl, inr,
}
use muzi.EventLoopThreadPool.{EventLoopThreadPool, get_next_loop, start as start_pool}
use muzi.TcpServer.{
  TcpServer, Client, init, start_with, start, add_client, new_connection, run_establish, operate,
  remove_connection_in_loop, run_destroy, at_head, behind, at_client, with_clients,
}
use muzi.TcpServer.Run.{
  Action, call_start, accept, establishing, removing, destroying, operating, step, Run, Run-keeps,
}
use muzi.TcpServer.Clients.{
  fine, fine_after, fine_next, new_client-fine, run_establish-fine, remove-fine, run_destroy-fine,
  operate-fine,
}

abbrev pub all_fine : List Client → Bool
all_fine [] = true
all_fine (x ∷ xs) = fine x && all_fine xs

abbrev all_fine_after : Option (List Client) → Bool
all_fine_after none = true
all_fine_after (some xs) = all_fine xs

abbrev fine_server_after : Option TcpServer → Bool
fine_server_after none = true
fine_server_after (some s) = all_fine s.clients

at_head-all_fine :
    (xs : List Client) (r : Option Client)
    → fine_after r ≡ true
    → all_fine xs ≡ true
    → all_fine_after (at_head xs r) ≡ true
at_head-all_fine xs none f h = refl
at_head-all_fine xs (some x) f h = rw (f, h) refl

behind-all_fine :
    (x : Client) (r : Option (List Client))
    → fine x ≡ true
    → all_fine_after r ≡ true
    → all_fine_after (behind x r) ≡ true
behind-all_fine x none f h = refl
behind-all_fine x (some xs) f h = rw (f, h) refl

-- A step that keeps a connection fine keeps all of them fine.
module _ (f : Client → Option Client)
    (keeps : (x : Client) → fine x ≡ true → fine_after (f x) ≡ true) where
  at_client-all_fine :
      (i : ℕ) (xs : List Client) → all_fine xs ≡ true → all_fine_after (at_client f i xs) ≡ true
  at_client-all_fine i [] h = refl
  at_client-all_fine zero (x ∷ xs) h =
      at_head-all_fine xs (f x) (keeps x (ground arith)) (ground arith)
  at_client-all_fine (suc i) (x ∷ xs) h =
      behind-all_fine x (at_client f i xs) (ground arith) (at_client-all_fine i xs (ground arith))

  with_clients_fine :
      (s : TcpServer) (i : ℕ)
      → all_fine s.clients ≡ true
      → fine_server_after (with_clients s (at_client f i s.clients)) ≡ true
  with_clients_fine s i h = pass (at_client f i s.clients) (at_client-all_fine i s.clients h)
    where
      pass :
          (r : Option (List Client))
          → all_fine_after r ≡ true
          → fine_server_after (with_clients s r) ≡ true
      pass none q = refl
      pass (some xs) q = q

next→after : (r : Option Client) → fine_next r ≡ true → fine_after r ≡ true
next→after none h = refl
next→after (some x) h = h

establish_keeps : (x : Client) → fine x ≡ true → fine_after (run_establish x) ≡ true
unfolding run_establish
establish_keeps x h = elim (Bool-cases (ltb 0 x.establishing)) [
  | inl on ↦ next→after (run_establish x) (run_establish-fine x (ground arith) h)
  | inr off ↦ rw off refl
]

remove_keeps : (x : Client) → fine x ≡ true → fine_after (remove_connection_in_loop x) ≡ true
unfolding remove_connection_in_loop
remove_keeps x h = elim (Bool-cases (ltb 0 x.removing)) [
  | inl on ↦ next→after (remove_connection_in_loop x) (remove-fine x (ground arith) h)
  | inr off ↦ rw off refl
]

destroy_keeps : (x : Client) → fine x ≡ true → fine_after (run_destroy x) ≡ true
unfolding run_destroy
destroy_keeps x h = elim (Bool-cases (ltb 0 x.destroying)) [
  | inl on ↦ next→after (run_destroy x) (run_destroy-fine x (ground arith) h)
  | inr off ↦ rw off refl
]

all_fine-append :
    (xs ys : List Client) → all_fine xs ≡ true → all_fine ys ≡ true → all_fine (xs ++ ys) ≡ true
all_fine-append [] ys h k = k
all_fine-append (x ∷ xs) ys h k =
    let f : fine x ≡ true = ground (arith, h) in
    rw (f, all_fine-append xs ys (ground (arith, h)) k) refl

add_client_fine :
    (s : TcpServer) (r : Option (ℕ × EventLoopThreadPool))
    → all_fine s.clients ≡ true
    → fine_server_after (add_client s r) ≡ true
add_client_fine s none h = refl
add_client_fine s (some (loop, pool)) h =
    all_fine-append s.clients _ h (rw (new_client-fine s.write_complete_callback loop) refl)

start_with_fine :
    (s : TcpServer) (r : Option EventLoopThreadPool)
    → all_fine s.clients ≡ true
    → fine_server_after (start_with s r) ≡ true
start_with_fine s none h = refl
start_with_fine s (some pool) h = elim (Bool-cases (ltb 0 s.listens)) [
  | inl on ↦ rw on refl
  | inr off ↦ rw off h
]

step_fine :
    (a : Action) (s : TcpServer) → all_fine s.clients ≡ true → fine_server_after (step a s) ≡ true
unfolding step start new_connection
step_fine (call_start loop_of b) s h = elim (Bool-cases s.started) [
  | inl on ↦ rw on h
  | inr off ↦ rw off (start_with_fine s (start_pool loop_of b s.thread_pool) h)
]
step_fine accept s h = add_client_fine s (get_next_loop s.thread_pool) h
step_fine (establishing i) s h = with_clients_fine run_establish establish_keeps s i h
step_fine (removing i) s h = with_clients_fine remove_connection_in_loop remove_keeps s i h
step_fine (destroying i) s h = with_clients_fine run_destroy destroy_keeps s i h
step_fine (operating o i) s h = with_clients_fine (operate o) (operate-fine o) s i h

pub Run_fine :
    (loop n : ℕ) (b : Bool) {acts : List Action} {s : TcpServer}
    → Run (init loop n b) acts s
    → all_fine s.clients ≡ true
unfolding init
Run_fine loop n b r =
    Run-keeps (λ s. all_fine s.clients ≡ true)
      (λ a s s₁ e h. subst (λ q. fine_server_after q ≡ true) e (step_fine a s h)) r refl
