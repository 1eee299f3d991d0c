-- ===== src/Connector/Sockets.antt =====
-- Every socket that the connector makes is closed once or handed over, or it is the one watched.
use muzi.Prelude.{
  ℕ, ◌+◌, ◌≡◌, refl, Bool, true, false, not, ◌&&◌, List, [], ◌∷◌, Option, none, some, arith, ◌==◌,
  if◌then◌else◌,
}
use mathlib.Core.Path.{subst}
use muzi.Connector.{
  disconnected, connecting, Watched, Connector, Effect, close, new_connection, cancel_timer,
  run_after, queue_reset_channel, Errno, success, in_progress, intr, is_conn, again, addr_in_use,
  addr_not_avail, conn_refused, net_unreach, acces, perm, af_no_support, already, bad_f, fault,
  not_sock, unknown, Result, is_connecting, is_disconnected, retry, connecting_to, connect_result,
  connect_to, start_in_loop, start, restart_in_loop, remove_and_reset_channel, reset_channel,
  init_retry_delay_ms, stop_in_loop, stop, handle_connected, handle_write,
}

abbrev pub is : ℕ → ℕ → ℕ
is x y = if x == y then 1 else 0

-- How often a descriptor is given away.
abbrev pub released : ℕ → List Effect → ℕ
released x [] = 0
released x (close fd ∷ es) = is x fd + released x es
released x (new_connection fd ∷ es) = is x fd + released x es
released x (cancel_timer i ∷ es) = released x es
released x (run_after d ∷ es) = released x es
released x (queue_reset_channel ∷ es) = released x es

-- Whether the connector watches a descriptor.
abbrev watched : ℕ → Option Watched → ℕ
watched x none = 0
watched x (some w) = if w.in_poller then is x w.fd else 0

abbrev pub held : ℕ → Connector → ℕ
held x c = watched x c.channel

-- The channel is in the poller exactly while the connector is connecting.
abbrev in_poller : Option Watched → Bool
in_poller none = false
in_poller (some w) = w.in_poller

abbrev pub sound : Connector → Bool
sound c = if is_connecting c.state then in_poller c.channel else not (in_poller c.channel)

pub data Op : Type 0 where
  start_op timer_op restart_op : Errno → Op
  stop_op reset_op : Op
  write_op : Bool → Bool → Op

-- Every operation gets a fresh socket and timer, `fd` and `timer`; timer_op is the call that
-- Retry() has put off.
unfoldable pub step : ℕ → ℕ → Op → Connector → Result
step timer fd (start_op e) c = start timer fd e c
step timer fd (timer_op e) c = start_in_loop timer fd e c
step timer fd (restart_op e) c = restart_in_loop timer fd e c
step timer fd stop_op c = stop timer c
step timer fd reset_op c = some (reset_channel c, [])
step timer fd (write_op error self) c = handle_write timer error self c

-- How often a step makes the descriptor `x`, where a new socket gets `fd`.
abbrev pub made : ℕ → ℕ → Op → Connector → ℕ
made x fd (start_op e) c = if is_disconnected c.state then is x fd else 0
made x fd (timer_op e) c = if c.connect && is_disconnected c.state then is x fd else 0
made x fd (restart_op e) c = is x fd
made x fd _ c = 0

-- ReStartInLoop() is not for a connector that is connecting, and ResetChannel() is queued by
-- RemoveAndResetChannel() only.
abbrev pub allowed : Op → Connector → Bool
allowed (restart_op e) c = not (is_connecting c.state)
allowed reset_op c = not (in_poller c.channel)
allowed _ c = true

abbrev balance : ℕ → ℕ → Connector → Result → Bool
balance x n c none = true
balance x n c (some (c', es)) = sound c' && (held x c + n == released x es + held x c')

-- Connect() by its result, from a connector that is not connecting.
connect_result-balance :
    (x timer fd : ℕ) (e : Errno) (c : Connector)
    → is_connecting c.state ≡ false
    → in_poller c.channel ≡ false
    → balance x (is x fd) c (connect_result timer fd e c) ≡ true
unfolding connect_result connecting_to retry
connect_result-balance x timer fd success c d s = ground arith
connect_result-balance x timer fd in_progress c d s = ground arith
connect_result-balance x timer fd intr c d s = ground arith
connect_result-balance x timer fd is_conn c d s = ground arith
connect_result-balance x timer fd again c d s = ground arith
connect_result-balance x timer fd addr_in_use c d s = ground arith
connect_result-balance x timer fd addr_not_avail c d s = ground arith
connect_result-balance x timer fd conn_refused c d s = ground arith
connect_result-balance x timer fd net_unreach c d s = ground arith
connect_result-balance x timer fd acces c d s = ground arith
connect_result-balance x timer fd perm c d s = ground arith
connect_result-balance x timer fd af_no_support c d s = ground arith
connect_result-balance x timer fd already c d s = ground arith
connect_result-balance x timer fd bad_f c d s = ground arith
connect_result-balance x timer fd fault c d s = ground arith
connect_result-balance x timer fd not_sock c d s = ground arith
connect_result-balance x timer fd unknown c d s = ground arith

step-balance :
    (x timer fd : ℕ) (o : Op) (c : Connector)
    → sound c ≡ true
    → allowed o c ≡ true
    → balance x (made x fd o c) c (step timer fd o c) ≡ true
unfolding step start start_in_loop connect_to restart_in_loop stop stop_in_loop retry
    remove_and_reset_channel reset_channel handle_write handle_connected
step-balance x timer fd (start_op e) c s a =
    let b = connect_result-balance x timer fd e (record c { connect = true }) in ground arith
step-balance x timer fd (timer_op e) c s a =
    let b = connect_result-balance x timer fd e c in ground arith
step-balance x timer fd (restart_op e) c s a =
    connect_result-balance x timer fd e
      (record c { connect = true; state = disconnected; retry_delay = init_retry_delay_ms }) refl
      (ground arith)
step-balance x timer fd stop_op c s a = ground arith
step-balance x timer fd reset_op c s a = ground arith
step-balance x timer fd (write_op error self) c s a = ground arith

-- No operation of a sound connector loses a socket or closes one twice: for any descriptor, what
-- the connector watches before and what it makes is what it closes or hands over and what it
-- watches after. The connector stays sound, which is to say that its channel is in the poller
-- exactly while it is connecting.
pub step_lem :
    (x timer fd : ℕ) (o : Op) (c : Connector) {c' : Connector} {es : List Effect}
    → sound c ≡ true
    → allowed o c ≡ true
    → step timer fd o c ≡ some (c', es)
    → (sound c' ≡ true) × (held x c + made x fd o c ≡ released x es + held x c')
step_lem x timer fd o c s a e =
    let b = subst (λ r. balance x (made x fd o c) c r ≡ true) e (step-balance x timer fd o c s a) in
    (ground arith, ground arith)

-- A connector that is stopped while it connects and started again before the loop has run
-- ResetChannel() fails the assertion of Connecting(), if connect(2) succeeds or is under way.
pub start-stop :
    (timer timer' fd fd' : ℕ) (c : Connector)
    → c.state ≡ connecting
    → c.channel ≡ some (record { fd = fd; in_poller = true })
    → (c' : Connector) × (es : List Effect) × (stop timer c ≡ some (c', es))
      × (start timer' fd' in_progress c' ≡ none)
      × (start timer' fd' success c' ≡ none)
unfolding stop stop_in_loop retry remove_and_reset_channel start start_in_loop connect_to
    connect_result connecting_to
start-stop timer timer' fd fd' c s w = rw (s, w) (_, _, refl, refl, refl)
