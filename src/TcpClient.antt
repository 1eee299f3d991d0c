-- ===== src/TcpClient.antt =====
-- muzi/net/tcp_client.h and tcp_client.cc: a client in its loop's thread, its connector and the
-- connections that it has had. What the connector and a connection do is their own model's step; the
-- callbacks that they hold are NewConnection() and RemoveConnection(). The sockets, timers and results
-- of connect(2) are arguments. `none` is a failed assertion or a null pointer.
pub mod Run
pub mod Current
pub mod Steps
pub mod Removal
pub mod Safety
pub mod Reconnect
mod Examples
use muzi.Prelude.{
  ℕ, zero, suc, ◌+◌, ◌-◌, Bool, true, false, ◌&&◌, List, [], ◌∷◌, Option, none, some, length, ◌==◌,
  if◌then◌else◌,
}
use muzi.TcpConnection.{
  TcpConnection, Result, init as new_connection_object, establish_connection, destroy_connection,
}
use muzi.TcpConnection.Run.{Op, shut, step as connection_step}
use muzi.TcpConnection.Lifecycle.{closes}
use muzi.Connector.{Connector, Errno, new_connection, init as new_connector, reset_channel}
use muzi.Connector.Sockets.{start_op, restart_op, stop_op, step as connector_step}

-- The connections are the newest first: the one with `n` others behind it has the name name_#n, and
-- `connection` is the number of connection_. `resets` counts the queued ResetChannel().
pub record TcpClient : Type 0 where
  pub to_connect : Bool
  pub is_retry : Bool
  pub connector : Connector
  pub resets : ℕ
  pub connection : Option ℕ
  pub connections : List TcpConnection

-- TcpClient(), and EnableRetry() or not.
unfoldable pub init : Bool → TcpClient
init retry = record {
  to_connect = false;
  is_retry = retry;
  connector = record new_connector { new_connection_callback = true };
  resets = 0;
  connection = none;
  connections = [];
}

-- A socket and a timer that are not in use, and what connect(2) will say of the socket.
pub record Attempt : Type 0 where
  pub timer : ℕ
  pub fd : ℕ
  pub errno : Errno

abbrev pub is_connection : Option ℕ → ℕ → Bool
is_connection none n = false
is_connection (some m) n = m == n

-- The connection that NewConnection() makes, with its callbacks.
abbrev pub new_object : TcpConnection
new_object = record new_connection_object {
  connection_callback = true;
  message_callback = true;
  write_complete_callback = true;
  close_callback = true;
}

abbrev pub at_head : List TcpConnection → Result → Option (List TcpConnection)
at_head cs none = none
at_head cs (some (c, es)) = some (c ∷ cs)

abbrev pub add_connection : TcpClient → Option (List TcpConnection) → Option TcpClient
add_connection s none = none
add_connection s (some cs) =
    some (record s { connection = some (length s.connections); connections = cs })

-- NewConnection(): connection_ is replaced and established.
unfoldable pub new_connection_in_loop : TcpClient → Option TcpClient
new_connection_in_loop s =
    add_connection s (at_head s.connections (establish_connection new_object))

-- What the connector's calls do to the client.
abbrev pub and_then : (TcpClient → Option TcpClient) → Option TcpClient → Option TcpClient
and_then f none = none
and_then f (some s) = f s

abbrev pub run_effects : List muzi.Connector.Effect → TcpClient → Option TcpClient
run_effects [] s = some s
run_effects (new_connection fd ∷ es) s = and_then (run_effects es) (new_connection_in_loop s)
run_effects (muzi.Connector.queue_reset_channel ∷ es) s =
    run_effects es (record s { resets = s.resets + 1 })
run_effects (muzi.Connector.close fd ∷ es) s = run_effects es s
run_effects (muzi.Connector.cancel_timer t ∷ es) s = run_effects es s
run_effects (muzi.Connector.run_after d ∷ es) s = run_effects es s

abbrev pub with_connector : TcpClient → muzi.Connector.Result → Option TcpClient
with_connector s none = none
with_connector s (some (c, es)) = run_effects es (record s { connector = c })

abbrev pub call_connector : Attempt → muzi.Connector.Sockets.Op → TcpClient → Option TcpClient
call_connector a o s = with_connector s (connector_step a.timer a.fd o s.connector)

-- Connect()
pub connect : Attempt → TcpClient → Option TcpClient
connect a s = call_connector a (start_op a.errno) (record s { to_connect = true })

-- Stop()
pub stop : Attempt → TcpClient → Option TcpClient
stop a s = call_connector a stop_op (record s { to_connect = false })

-- The connection of number `n`.
abbrev pub at_number : ℕ → List TcpConnection → Option TcpConnection
at_number n [] = none
at_number n (c ∷ cs) = let rest = at_number n cs in if length cs == n then some c else rest

abbrev pub replace : ℕ → TcpConnection → List TcpConnection → List TcpConnection
replace n c' [] = []
replace n c' (c ∷ cs) = let rest = replace n c' cs in if length cs == n then c' ∷ cs else c ∷ rest

abbrev pub with_connection : ℕ → TcpClient → Result → Option TcpClient
with_connection n s none = none
with_connection n s (some (c, es)) = some (record s { connections = replace n c s.connections })

-- The end of RemoveConnection().
abbrev pub reconnect : Attempt → TcpClient → Option TcpClient
reconnect a s =
    if s.to_connect && s.is_retry then call_connector a (restart_op a.errno) s else some s

-- RemoveConnection() of the connection `c` of number `n`.
abbrev pub remove_connection : Attempt → ℕ → TcpConnection → TcpClient → Option TcpClient
remove_connection a n c s =
    let s' = if is_connection s.connection n then record s { connection = none } else s in
    and_then (reconnect a) (with_connection n s' (destroy_connection c))

-- Behind a step of the connection of number `n`, which calls the close callback at most once.
abbrev pub with_result : Attempt → ℕ → TcpClient → Result → Option TcpClient
with_result a n s none = none
with_result a n s (some (c, es)) =
    let s' = record s { connections = replace n c s.connections } in
    if closes es == 0 then some s' else remove_connection a n c s'

abbrev pub on_connection : Attempt → Op → ℕ → TcpClient → Option TcpConnection → Option TcpClient
on_connection a o n s none = none
on_connection a o n s (some c) = with_result a n s (connection_step o c)

-- What the connection of number `n` does.
unfoldable pub operate : Attempt → Op → ℕ → TcpClient → Option TcpClient
operate a o n s = on_connection a o n s (at_number n s.connections)

-- DisConnect(): ShutDown() of connection_.
abbrev pub shut_found : ℕ → TcpClient → Option TcpConnection → Option TcpClient
shut_found n s none = none
shut_found n s (some c) = with_connection n s (connection_step shut c)

abbrev pub shut_connection : TcpClient → Option ℕ → Option TcpClient
shut_connection s none = some s
shut_connection s (some n) = shut_found n s (at_number n s.connections)

pub disconnect : TcpClient → Option TcpClient
disconnect s = shut_connection (record s { to_connect = false }) s.connection

-- DisableConnectInLoop()
pub disable_connect_in_loop : TcpClient → TcpClient
disable_connect_in_loop s = record s { to_connect = false }

-- A queued ResetChannel().
abbrev pub run_reset : TcpClient → TcpClient
run_reset s = record s { connector = reset_channel s.connector; resets = s.resets - 1 }
