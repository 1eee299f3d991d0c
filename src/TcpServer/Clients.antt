-- ===== src/TcpServer/Clients.antt =====
-- What holds of each connection of a server.
use muzi.Prelude.{
  ℕ, ◌+◌, ◌-◌, ◌<◌, ◌≡◌, refl, Bool, true, false, ◌&&◌, Option, none, some, arith, ◌==◌,
  if◌then◌else◌, Bool-cases, inl, inr, lt→ltb,
}
use muzi.TcpConnection.{
  connecting, disconnected, Result, is, init as new_connection_object, establish_connection,
  destroy_connection,
}
use muzi.TcpConnection.Run.{Op, own, step as connection_step}
use muzi.TcpConnection.Lifecycle.{down}
use muzi.TcpConnection.Owner.{
  owned, serves, own-step-serves, established, establish_connection_lem, destroyed,
  destroy_connection_lem,
}
use muzi.TcpServer.{
  Client, new_client, with_result, run_establish, operate, remove_connection_in_loop, run_destroy,
}

abbrev pub one_unless : Bool → ℕ
one_unless b = if b then 0 else 1

-- A connection has its callbacks, and
--   EstablishConnection() is queued exactly while it is connecting;
--   it is down exactly when its removal is queued or it has left the map;
--   it has left the map exactly when its end is queued or it has left the poller.
abbrev pub fine : Client → Bool
fine x =
    owned x.conn
    && ((x.establishing == (if is x.conn connecting then 1 else 0))
        && ((x.removing + one_unless x.in_map == down x.conn)
            && (x.destroying + one_unless x.conn.in_poller == one_unless x.in_map)))

abbrev pub fine_after : Option Client → Bool
fine_after none = true
fine_after (some x) = fine x

-- The functor can run, and leaves a fine connection.
abbrev pub fine_next : Option Client → Bool
fine_next none = false
fine_next (some x) = fine x

pub new_client-fine : (b : Bool) (loop : ℕ) → fine (new_client b loop) ≡ true
unfolding new_connection_object
new_client-fine b loop = refl

with_established :
    (x : Client) (r : Result)
    → is x.conn connecting ≡ true
    → fine x ≡ true
    → established x.conn r ≡ true
    → fine_next (with_result (record x { establishing = x.establishing - 1 }) r) ≡ true
with_established x none k h e = absurd (ground (arith, e))
with_established x (some (c', es)) k h e = ground (arith, k, h, e)

pub run_establish-fine :
    (x : Client) → 0 < x.establishing → fine x ≡ true → fine_next (run_establish x) ≡ true
unfolding run_establish
run_establish-fine x q h =
    let k : is x.conn connecting ≡ true = ground (arith, h) in
    rw (lt→ltb 0 x.establishing q) (
      with_established x (establish_connection x.conn) k h
        (establish_connection_lem x.conn (ground (arith, h)) k))

pub remove-fine :
    (x : Client) → 0 < x.removing → fine x ≡ true → fine_next (remove_connection_in_loop x) ≡ true
unfolding remove_connection_in_loop
remove-fine x q h = ground (arith, h)

with_destroyed :
    (x : Client) (r : Result)
    → 0 < x.destroying
    → is x.conn disconnected ≡ true
    → fine x ≡ true
    → destroyed x.conn r ≡ true
    → fine_next (with_result (record x { destroying = x.destroying - 1 }) r) ≡ true
with_destroyed x none q k h e = absurd (ground (arith, e))
with_destroyed x (some (c', es)) q k h e = ground (arith, k, h, e)

pub run_destroy-fine :
    (x : Client) → 0 < x.destroying → fine x ≡ true → fine_next (run_destroy x) ≡ true
unfolding run_destroy
run_destroy-fine x q h =
    let out : x.in_map ≡ false = ground (arith, h) in
    let k : is x.conn disconnected ≡ true = ground (arith, h, out) in
    rw (lt→ltb 0 x.destroying q) (
      with_destroyed x (destroy_connection x.conn) q k h
        (destroy_connection_lem x.conn (ground (arith, h)) k (ground (arith, h, out))))

with_served :
    (x : Client) (r : Result)
    → fine x ≡ true
    → serves x.conn r ≡ true
    → fine_after (with_result x r) ≡ true
with_served x none h e = refl
with_served x (some (c', es)) h e = ground (arith, h, e)

-- What a connection does by itself keeps it fine.
pub operate-fine : (o : Op) (x : Client) → fine x ≡ true → fine_after (operate o x) ≡ true
unfolding operate
operate-fine o x h = elim (Bool-cases (own o)) [
  | inl on ↦
      rw on (
        with_served x (connection_step o x.conn) h
          (own-step-serves o x.conn on (ground (arith, h))))
  | inr off ↦ rw off refl
]
