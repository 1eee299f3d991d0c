-- ===== src/TcpClient/Run.antt =====
-- The actions of a client's loop and the runs that they make.
use muzi.Prelude.{
  ℕ, ◌≡◌, Bool, true, false, not, ◌&&◌, List, [], ◌∷◌, Option, none, some, ltb, ◌==◌,
}
use muzi.TcpConnection.{TcpConnection, Result}
use muzi.TcpConnection.Run.{Op, step as connection_step}
use muzi.TcpConnection.Lifecycle.{closes}
use muzi.TcpConnection.Owner.{runs_on}
use muzi.Connector.{is_connecting, is_disconnected}
use muzi.Connector.Calls.{opens}
use muzi.Connector.Sockets.{timer_op, write_op}
use muzi.TcpClient.{
  TcpClient, Attempt, call_connector, connect, stop, at_number, operate, disconnect,
  disable_connect_in_loop, run_reset,
}

-- `expire` is the timer of Connector::Retry(), `connected` its HandleWrite() with the socket's error
-- and what IsSelfConnect() says, and `reset` the queued ResetChannel().
pub data Action : Type 0 where
  call_connect call_stop expire : Attempt → Action
  call_disconnect disable reset : Action
  connected : Attempt → Bool → Bool → Action
  operating : Attempt → Op → ℕ → Action

unfoldable pub step : Action → TcpClient → Option TcpClient
step (call_connect a) s = connect a s
step (call_stop a) s = stop a s
step (expire a) s = call_connector a (timer_op a.errno) s
step call_disconnect s = disconnect s
step disable s = some (disable_connect_in_loop s)
step reset s = some (run_reset s)
step (connected a error self) s = call_connector a (write_op error self) s
step (operating a o n) s = operate a o n s

-- Events come while the connection is in the poller, and its user may call it at any time.
abbrev pub may : Op → Option TcpConnection → Bool
may o none = false
may o (some c) = runs_on o c

-- An event of the connector comes while its channel is in the poller. The user's calls come at any
-- time: those of the connection callback of NewConnection() come behind it, with ResetChannel() queued.
abbrev pub enabled : Action → TcpClient → Bool
enabled (call_connect a) s = true
enabled (call_stop a) s = true
enabled (expire a) s = true
enabled call_disconnect s = true
enabled disable s = true
enabled reset s = ltb 0 s.resets
enabled (connected a error self) s = is_connecting s.connector.state
enabled (operating a o n) s = may o (at_number n s.connections)

abbrev pub result_closes : Result → Bool
result_closes none = false
result_closes (some (c, es)) = not (closes es == 0)

abbrev pub brings_down : Op → Option TcpConnection → Bool
brings_down o none = false
brings_down o (some c) = result_closes (connection_step o c)

-- An action that makes a socket which connect(2) does not refuse, so that Connecting() is called.
abbrev pub tries : Action → TcpClient → Bool
tries (call_connect a) s = opens a.errno && is_disconnected s.connector.state
tries (expire a) s = opens a.errno && (s.connector.connect && is_disconnected s.connector.state)
tries (operating a o n) s =
    opens a.errno && (s.to_connect && (s.is_retry && brings_down o (at_number n s.connections)))
tries _ s = false

pub data Run : TcpClient → List Action → TcpClient → Type 0 where
  done : (s : TcpClient) → Run s [] s
  after :
      {s s₁ s₂ : TcpClient} (a : Action) {acts : List Action}
      → enabled a s ≡ true
      → step a s ≡ some s₁
      → Run s₁ acts s₂
      → Run s (a ∷ acts) s₂
