-- ===== src/TcpServer/Removal.antt =====
-- The functors of a server run without a failing assertion, and take every connection that is down
-- out of the map and out of its poller.
use mathlib.Core.Path.{subst}
use muzi.Prelude.{
  ℕ, zero, suc, ◌+◌, ◌<◌, ◌≡◌, refl, ap, sym, Bool, true, false, not, List, [], ◌∷◌, Option, none,
  some, arith,
}
use muzi.TcpConnection.{disconnected, is}
use muzi.TcpServer.{
  TcpServer, Client, init, run_establish, remove_connection_in_loop, run_destroy, at_head, behind,
  at_client, with_clients,
}
use muzi.TcpServer.Run.{
  Action, call_start, accept, establishing, removing, destroying, operating, step, Run,
}
use muzi.TcpServer.Clients.{
  fine, fine_after, fine_next, run_establish-fine, remove-fine, run_destroy-fine,
}
use muzi.TcpServer.Steps.{all_fine, Run_fine}

abbrev pub at_place : ℕ → List Client → Option Client
at_place i [] = none
at_place zero (x ∷ xs) = some x
at_place (suc i) (x ∷ xs) = at_place i xs

at_place-fine :
    (i : ℕ) (xs : List Client) {x : Client}
    → at_place i xs ≡ some x
    → all_fine xs ≡ true
    → fine x ≡ true
at_place-fine i [] e h = cc
at_place-fine zero (x ∷ xs) e h = subst (λ o. fine_after o ≡ true) e (ground arith)
at_place-fine (suc i) (x ∷ xs) e h = at_place-fine i xs e (ground arith)

-- The functor of an action is queued for the connection.
abbrev pub queued : Action → Client → ℕ
queued (establishing i) x = x.establishing
queued (removing i) x = x.removing
queued (destroying i) x = x.destroying
queued _ x = 0

abbrev pub place : Action → ℕ
place (establishing i) = i
place (removing i) = i
place (destroying i) = i
place _ = 0

module _ (f : Client → Option Client) where
  at_client_runs :
      (i : ℕ) (xs : List Client) {x : Client}
      → at_place i xs ≡ some x
      → fine_next (f x) ≡ true
      → (ys : List Client) × (at_client f i xs ≡ some ys)
  at_client_runs i [] e h = absurd cc
  at_client_runs zero (y ∷ xs) {x = x} e h = head (f y) (subst (λ o. some_fine o ≡ true) (sym e) h)
    where
      some_fine : Option Client → Bool
      some_fine none = false
      some_fine (some z) = fine_next (f z)

      head :
          (r : Option Client) → fine_next r ≡ true → (ys : List Client) × (at_head xs r ≡ some ys)
      head none q = absurd (ground arith)
      head (some z) q = (z ∷ xs, refl)
  at_client_runs (suc i) (y ∷ xs) e h =
      let (ys, q) = at_client_runs i xs e h in (y ∷ ys, ap (behind y) q)

  with_clients_runs :
      (s : TcpServer) (i : ℕ) {x : Client}
      → at_place i s.clients ≡ some x
      → fine_next (f x) ≡ true
      → (s' : TcpServer) × (with_clients s (at_client f i s.clients) ≡ some s')
  with_clients_runs s i e h =
      let (ys, q) = at_client_runs i s.clients e h in
      (record s { clients = ys }, ap (with_clients s) q)

-- Whatever the connections and their loops do, and in whatever order, each queued
-- EstablishConnection(), RemoveConnectionInLoop() and DestroyConnection() runs without a failing
-- assertion: a connection is removed when the map has it, and once.
pub step-queued :
    (loop n : ℕ) (b : Bool) (a : Action) {acts : List Action} {s : TcpServer} {x : Client}
    → Run (init loop n b) acts s
    → at_place (place a) s.clients ≡ some x
    → 0 < queued a x
    → (s' : TcpServer) × (step a s ≡ some s')
unfolding step
step-queued loop n b a {s = s} {x = x} r e q = by_action a e q
  where
    by_action :
        (a : Action)
        → at_place (place a) s.clients ≡ some x
        → 0 < queued a x
        → (s' : TcpServer) × (step a s ≡ some s')
    by_action (establishing i) e q =
        with_clients_runs run_establish s i e
          (run_establish-fine x q (at_place-fine i s.clients e (Run_fine loop n b r)))
    by_action (removing i) e q =
        with_clients_runs remove_connection_in_loop s i e
          (remove-fine x q (at_place-fine i s.clients e (Run_fine loop n b r)))
    by_action (destroying i) e q =
        with_clients_runs run_destroy s i e
          (run_destroy-fine x q (at_place-fine i s.clients e (Run_fine loop n b r)))
    by_action (call_start l h) e q = absurd (omega arith)
    by_action accept e q = absurd (omega arith)
    by_action (operating o i) e q = absurd (omega arith)

-- Whatever happens, a connection for which nothing is queued is in the map of the server and in its
-- poller while it is not down, and in neither when it is.
pub settled_lem :
    (loop n : ℕ) (b : Bool) (i : ℕ) {acts : List Action} {s : TcpServer} {x : Client}
    → Run (init loop n b) acts s
    → at_place i s.clients ≡ some x
    → x.establishing + (x.removing + x.destroying) ≡ 0
    → (x.in_map ≡ not (is x.conn disconnected)) × (x.conn.in_poller ≡ not (is x.conn disconnected))
settled_lem loop n b i {s = s} {x = x} r e q =
    let h : fine x ≡ true = at_place-fine i s.clients e (Run_fine loop n b r) in
    let m : x.in_map ≡ not (is x.conn disconnected) = ground (arith, h, q) in
    (m, ground (arith, h, q, m))
