-- ===== src/TcpServer.antt =====
-- muzi/net/tcp_server.h and tcp_server.cc: the connections of a server, each in the thread of its
-- loop, and the functors that the server and the connections queue for each other. What a
-- connection does is its own model's step; its close callback is RemoveConnection(). A functor
-- that RunInLoop() runs at once is queued and run by the next action. `none` is a failed
-- assertion, or an action that nothing has queued.
pub mod Run
pub mod Clients
pub mod Steps
pub mod Removal
mod Examples
use muzi.Prelude.{
  ℕ, zero, suc, ◌+◌, ◌-◌, Bool, true, false, not, List, [], ◌∷◌, ◌++◌, Option, none, some, ltb,
  if◌then◌else◌, ◌&&◌,
}
use muzi.TcpConnection.{
  TcpConnection, Effect, Result, init as new_connection_object, establish_connection,
  destroy_connection,
}
use muzi.TcpConnection.Run.{Op, own, step as connection_step}
use muzi.TcpConnection.Lifecycle.{closes}
use muzi.EventLoopThreadPool.{
  EventLoopThreadPool, init as new_pool, start as start_pool, get_next_loop,
}

-- A connection, its loop, whether connections_ has it, and how many functors are queued for it:
-- EstablishConnection(), RemoveConnectionInLoop() and DestroyConnection().
pub record Client : Type 0 where
  pub conn : TcpConnection
  pub io_loop : ℕ
  pub in_map : Bool
  pub establishing : ℕ
  pub removing : ℕ
  pub destroying : ℕ

-- The client at place `i` is the connection of the name name_#i. `listens` counts the calls of
-- Acceptor::Listen() that are queued or done.
pub record TcpServer : Type 0 where
  pub started : Bool
  pub listens : ℕ
  pub conn_sequence : ℕ
  pub thread_pool : EventLoopThreadPool
  pub write_complete_callback : Bool
  pub clients : List Client

-- TcpServer(), SetThreadNum() and SetWriteCompleteCallback().
unfoldable pub init : ℕ → ℕ → Bool → TcpServer
init loop thread_nums has_callback = record {
  started = false;
  listens = 0;
  conn_sequence = 0;
  thread_pool = new_pool loop thread_nums;
  write_complete_callback = has_callback;
  clients = [];
}

abbrev pub start_with : TcpServer → Option EventLoopThreadPool → Option TcpServer
start_with s none = none
start_with s (some pool) =
    if ltb 0 s.listens
    then none
    else some (record s { started = true; listens = s.listens + 1; thread_pool = pool })

-- Start(), with thread_init_callback_ set or not.
pub start : (ℕ → ℕ) → Bool → TcpServer → Option TcpServer
start loop_of has_callback s =
    let started = start_with s (start_pool loop_of has_callback s.thread_pool) in
    if s.started then some s else started

-- The connection that NewConnection() makes, with its callbacks.
abbrev pub new_client : Bool → ℕ → Client
new_client has_write_complete loop = record {
  conn = record new_connection_object {
    connection_callback = true;
    message_callback = true;
    write_complete_callback = has_write_complete;
    close_callback = true;
  };
  io_loop = loop;
  in_map = true;
  establishing = 1;
  removing = 0;
  destroying = 0;
}

abbrev pub add_client : TcpServer → Option (ℕ × EventLoopThreadPool) → Option TcpServer
add_client s none = none
add_client s (some (loop, pool)) = some (record s {
  conn_sequence = s.conn_sequence + 1;
  thread_pool = pool;
  clients = s.clients ++ new_client s.write_complete_callback loop ∷ [];
})

pub new_connection : TcpServer → Option TcpServer
new_connection s = add_client s (get_next_loop s.thread_pool)

abbrev pub only : Bool → Option Client → Option Client
only b r = if b then r else none

-- The connection behind a step, and RemoveConnection() for each call of the close callback.
abbrev pub with_result : Client → Result → Option Client
with_result x none = none
with_result x (some (c, es)) = some (record x { conn = c; removing = x.removing + closes es })

-- A queued EstablishConnection().
pub run_establish : Client → Option Client
run_establish x =
    only (ltb 0 x.establishing)
      (with_result (record x { establishing = x.establishing - 1 }) (establish_connection x.conn))

-- What else a connection does.
pub operate : Op → Client → Option Client
operate o x = only (own o) (with_result x (connection_step o x.conn))

-- RemoveConnectionInLoop(): erase() takes one connection out, and DestroyConnection() is queued.
pub remove_connection_in_loop : Client → Option Client
remove_connection_in_loop x =
    only (ltb 0 x.removing && x.in_map)
      (some (record x { in_map = false; removing = x.removing - 1; destroying = x.destroying + 1 }))

-- A queued DestroyConnection().
pub run_destroy : Client → Option Client
run_destroy x =
    only (ltb 0 x.destroying)
      (with_result (record x { destroying = x.destroying - 1 }) (destroy_connection x.conn))

abbrev pub at_head : List Client → Option Client → Option (List Client)
at_head xs none = none
at_head xs (some x) = some (x ∷ xs)

abbrev pub behind : Client → Option (List Client) → Option (List Client)
behind x none = none
behind x (some xs) = some (x ∷ xs)

-- A step of the client at place `i`.
abbrev pub at_client : (Client → Option Client) → ℕ → List Client → Option (List Client)
at_client f i [] = none
at_client f zero (x ∷ xs) = at_head xs (f x)
at_client f (suc i) (x ∷ xs) = behind x (at_client f i xs)

abbrev pub with_clients : TcpServer → Option (List Client) → Option TcpServer
with_clients s none = none
with_clients s (some xs) = some (record s { clients = xs })
