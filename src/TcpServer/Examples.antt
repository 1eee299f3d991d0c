-- ===== src/TcpServer/Examples.antt =====
-- Tests of a server, and its theorems at a concrete run.
use muzi.Prelude.{ℕ, ◌+◌, ◌≡◌, refl, true, false, not, List, [], ◌∷◌, some, arith}
use muzi.TcpConnection.{
  init as new_connection_object, establish_connection, handle_read, handle_close, got,
  destroy_connection, disconnected, is,
}
use muzi.TcpConnection.Run.{readable, step as connection_step}
use muzi.EventLoopThreadPool.{
  given, init as new_pool, start as start_pool, start_threads, get_next_loop,
}
use muzi.TcpServer.{
  TcpServer, Client, init, start, new_connection, run_establish, operate, remove_connection_in_loop,
  run_destroy,
}
use muzi.TcpServer.Run.{
  Action, call_start, accept, establishing, removing, destroying, operating, step, Run, done, after,
}
use muzi.TcpServer.Removal.{step-queued, settled_lem}

abbrev loop_of : ℕ → ℕ
loop_of i = i + 1

-- A server with one loop accepts a connection, and the peer closes it.
abbrev closing : List Action
closing = call_start loop_of false ∷ accept ∷ establishing 0 ∷ operating (readable (got [])) 0 ∷ []

abbrev served : Client
unfolding new_connection_object
served = record {
  conn = record new_connection_object {
    state = disconnected;
    tied = true;
    connection_callback = true;
    message_callback = true;
    write_complete_callback = true;
    close_callback = true;
  };
  io_loop = 1;
  in_map = true;
  establishing = 0;
  removing = 1;
  destroying = 0;
}

abbrev closed : TcpServer
unfolding new_pool
closed = record (init 0 1 true) {
  started = true;
  listens = 1;
  conn_sequence = 1;
  thread_pool = record (new_pool 0 1) {
    started = true;
    threads = given ∷ [];
    event_loops = 1 ∷ [];
  };
  clients = served ∷ [];
}

closing_run : Run (init 0 1 true) closing closed
unfolding init new_pool start_pool start_threads get_next_loop new_connection_object connection_step
    establish_connection handle_read handle_close start new_connection run_establish operate step
closing_run = after (call_start loop_of false) refl (
    after accept refl
      (after (establishing 0) refl (after (operating (readable (got [])) 0) refl (done closed))))

step-queued_example : (s' : TcpServer) × (step (removing 0) closed ≡ some s')
unfolding init closed served
step-queued_example = step-queued 0 1 true (removing 0) closing_run refl (omega arith)

-- The connection leaves the map and its poller.
abbrev gone : Client
gone = record served {
  conn = record served.conn { in_poller = false };
  in_map = false;
  removing = 0;
}

removal_run :
    Run
      (init 0 1 true)
      (call_start loop_of false
        ∷ accept
        ∷ establishing 0
        ∷ operating (readable (got [])) 0
        ∷ removing 0
        ∷ destroying 0
        ∷ [])
      (record closed { clients = gone ∷ [] })
unfolding init new_pool start_pool start_threads get_next_loop new_connection_object connection_step
    establish_connection destroy_connection handle_read handle_close start new_connection
    run_establish operate step remove_connection_in_loop run_destroy
removal_run = after (call_start loop_of false) refl (
    after accept refl (
      after (establishing 0) refl (
        after (operating (readable (got [])) 0) refl
          (after (removing 0) refl (after (destroying 0) refl (done _))))))

settled_example :
    (gone.in_map ≡ not (is gone.conn disconnected))
    × (gone.conn.in_poller ≡ not (is gone.conn disconnected))
unfolding served
settled_example = settled_lem 0 1 true 0 removal_run refl refl
