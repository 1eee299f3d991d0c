-- ===== src/Connector.antt =====
-- muzi/net/connector.h and connector.cc: connects to a server, again and again with a growing delay.
-- The sockets that are made, the results of connect(2) and getsockopt(2) and the ids of timers are
-- arguments; the calls that leave the object are effects, in order. Every function runs in the
-- loop's thread, and `none` is a failed assertion or a null pointer.
pub mod Sockets
pub mod Delay
pub mod Calls
mod Examples
use muzi.Prelude.{
  ℕ, ◌*◌, Bool, true, false, not, ◌&&◌, List, [], ◌∷◌, ◌++◌, Option, none, some, min, if◌then◌else◌,
}

pub data State : Type 0 where
  disconnected connecting connected : State

-- The channel's descriptor, and whether it is still in the poller.
pub record Watched : Type 0 where
  pub fd : ℕ
  pub in_poller : Bool

pub record Connector : Type 0 where
  pub connect : Bool
  pub channel : Option Watched
  pub state : State
  pub retry_delay : ℕ
  pub timer_id : Option ℕ
  pub new_connection_callback : Bool

pub data Effect : Type 0 where
  close new_connection cancel_timer : ℕ → Effect
  run_after : ℕ → Effect
  queue_reset_channel : Effect

-- The result of connect(2).
pub data Errno : Type 0 where
  success in_progress intr is_conn : Errno
  again addr_in_use addr_not_avail conn_refused net_unreach : Errno
  acces perm af_no_support already bad_f fault not_sock unknown : Errno

abbrev pub Result : Type 0
Result = Option (Connector × List Effect)

abbrev pub init_retry_delay_ms : ℕ
init_retry_delay_ms = 500

abbrev pub max_retry_delay_ms : ℕ
max_retry_delay_ms = 30 * 1000

unfoldable pub init : Connector
init = record {
  connect = false;
  channel = none;
  state = disconnected;
  retry_delay = init_retry_delay_ms;
  timer_id = none;
  new_connection_callback = false;
}

abbrev pub is_connecting : State → Bool
is_connecting connecting = true
is_connecting _ = false

abbrev pub is_disconnected : State → Bool
is_disconnected disconnected = true
is_disconnected _ = false

-- Retry(): `timer` is the id that RunAfter() gives.
pub retry : ℕ → ℕ → Connector → Connector × List Effect
retry timer sock_fd c =
    if c.connect
    then (
      record c {
        state = disconnected;
        timer_id = some timer;
        retry_delay = min (c.retry_delay * 2) max_retry_delay_ms;
      },
      close sock_fd ∷ run_after c.retry_delay ∷ [],
    )
    else (record c { state = disconnected }, close sock_fd ∷ [])

unfoldable pub connecting_to : ℕ → Connector → Result
connecting_to sock_fd c = elim c.channel [
  | none ↦ some (
    record c { state = connecting; channel = some (record { fd = sock_fd; in_poller = true }) },
    [],
  )
  | some w ↦ none
]

-- What Connect() does with the socket, by the result of connect(2).
unfoldable pub connect_result : ℕ → ℕ → Errno → Connector → Result
connect_result timer fd success c = connecting_to fd c
connect_result timer fd in_progress c = connecting_to fd c
connect_result timer fd intr c = connecting_to fd c
connect_result timer fd is_conn c = connecting_to fd c
connect_result timer fd again c = some (retry timer fd c)
connect_result timer fd addr_in_use c = some (retry timer fd c)
connect_result timer fd addr_not_avail c = some (retry timer fd c)
connect_result timer fd conn_refused c = some (retry timer fd c)
connect_result timer fd net_unreach c = some (retry timer fd c)
connect_result timer fd _ c = some (c, close fd ∷ [])

unfoldable pub connect_to : ℕ → ℕ → Errno → Connector → Result
connect_to timer fd e c = if is_disconnected c.state then connect_result timer fd e c else none

unfoldable pub start_in_loop : ℕ → ℕ → Errno → Connector → Result
start_in_loop timer fd e c =
    if c.connect && is_disconnected c.state then connect_to timer fd e c else some (c, [])

-- Start() and Stop() from the loop's thread.
unfoldable pub start : ℕ → ℕ → Errno → Connector → Result
start timer fd e c = start_in_loop timer fd e (record c { connect = true })

pub restart_in_loop : ℕ → ℕ → Errno → Connector → Result
restart_in_loop timer fd e c =
    start_in_loop timer fd e
      (record c { connect = true; state = disconnected; retry_delay = init_retry_delay_ms })

-- RemoveAndResetChannel(): the descriptor, the connector and the effect.
unfoldable pub remove_and_reset_channel : Connector → Option (ℕ × Connector)
remove_and_reset_channel c = elim c.channel [
  | none ↦ none
  | some w ↦
      if w.in_poller
      then some (w.fd, record c { channel = some (record w { in_poller = false }) })
      else none
]

unfoldable pub reset_channel : Connector → Connector
reset_channel c = record c { channel = none }

abbrev pub prepend : List Effect → Connector × List Effect → Result
prepend es (c, fs) = some (c, es ++ fs)

abbrev pub cancel_retry : Option ℕ → List Effect
cancel_retry none = []
cancel_retry (some timer) = cancel_timer timer ∷ []

pub stop_in_loop : ℕ → Connector → Result
stop_in_loop timer c =
    if not c.connect && is_connecting c.state
    then elim (remove_and_reset_channel c) [
      | none ↦ none
      | some p ↦ prepend (cancel_retry c.timer_id ++ queue_reset_channel ∷ []) (retry timer p.0 p.1)
    ]
    else some (c, cancel_retry c.timer_id)

pub stop : ℕ → Connector → Result
stop timer c = stop_in_loop timer (record c { connect = false })

-- HandleWrite() on the socket `fd` that RemoveAndResetChannel() has given back.
unfoldable pub handle_connected : ℕ → Bool → Bool → ℕ × Connector → Result
handle_connected timer error self (fd, c) =
    if error
    then prepend (queue_reset_channel ∷ []) (retry timer fd c)
    else if self
    then prepend (queue_reset_channel ∷ []) (retry timer fd c)
    else some (
      record c { state = connected },
      queue_reset_channel
          ∷ (if c.new_connection_callback then new_connection fd else close fd)
          ∷ [],
    )

-- `error` says whether the socket has an error pending, `self` what IsSelfConnect() says.
unfoldable pub handle_write : ℕ → Bool → Bool → Connector → Result
handle_write timer error self c =
    if is_connecting c.state
    then elim (remove_and_reset_channel c) [
      | none ↦ none
      | some p ↦ handle_connected timer error self p
    ]
    else if is_disconnected c.state
    then some (c, [])
    else none
