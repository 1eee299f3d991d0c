-- ===== src/TcpClient/Reconnect.antt =====
-- What becomes of a client whose connection goes down.
use mathlib.Core.Path.{subst}
use muzi.Prelude.{
  ℕ, ◌≡◌, refl, ap, ◌∙◌, Bool, true, false, ◌&&◌, List, none, some, arith, ◌==◌, if◌then◌else◌,
}
use muzi.Connector.{in_progress, Result}
use muzi.Connector.Sockets.{restart_op, step as connector_step}
use muzi.Connector.Calls.{stale, is_connected, trying, restart_lem, restart-stale, start-connected}
use muzi.TcpConnection.{TcpConnection, Effect}
use muzi.TcpConnection.Run.{Op, step as connection_step}
use muzi.TcpConnection.Lifecycle.{closes}
use muzi.TcpConnection.Owner.{serves, own-step-serves, runs_on, runs_on-own}
use muzi.TcpClient.{
  TcpClient, Attempt, init, at_number, with_connector, connect, reconnect, with_result,
  on_connection, operate, call_connector,
}
use muzi.TcpClient.Run.{Action, Run}
use muzi.TcpClient.Current.{at_number-fine}
use muzi.TcpClient.Steps.{in_step}
use muzi.TcpClient.Removal.{removed, closes_lem}
use muzi.TcpClient.Safety.{Run-in_step, init-in_step}

-- What the connection of number `n` does in a client's loop, where it goes down.
abbrev pub GoesDown : Op → ℕ → TcpClient → Type 0
GoesDown o n s =
    (c : TcpConnection) × (c' : TcpConnection) × (es : List Effect) × (at_number n s.connections
      ≡ some c)
    × (runs_on o c ≡ true)
    × (connection_step o c ≡ some (c', es))
    × ((closes es == 0) ≡ false)

-- The client as RemoveConnection() leaves it.
operate-removed :
    (a : Attempt) (o : Op) (n : ℕ) (s : TcpClient)
    → in_step s ≡ true
    → GoesDown o n s
    → (s.connection ≡ some n)
      × (c'' : TcpConnection) × (operate a o n s ≡ reconnect a (removed n c'' s))
unfolding operate
operate-removed a o n s h (c, c', es, at, w, e, k) =
    let f = at_number-fine n s.connection s.connections at (ground (arith, h)) in
    let v =
      subst (λ r. serves c r ≡ true) e
        (own-step-serves o c (runs_on-own o c w) (ground (arith, f))) in
    let (current, c'', q, g) = closes_lem a n c c' es s f v k in
    (current, c'', ap (on_connection a o n s) at ∙ ap (with_result a n s) e ∙ q)

reconnect_on :
    (a : Attempt) (s : TcpClient) {r : Result}
    → s.to_connect ≡ true
    → s.is_retry ≡ true
    → connector_step a.timer a.fd (restart_op a.errno) s.connector ≡ r
    → reconnect a s ≡ with_connector s r
reconnect_on a s t on e =
    let both : (s.to_connect && s.is_retry) ≡ true = ground (arith, t, on) in
    ap (λ b. if b then call_connector a (restart_op a.errno) s else some s) both
    ∙ ap (with_connector s) e

reconnect_off : (a : Attempt) (s : TcpClient) → s.is_retry ≡ false → reconnect a s ≡ some s
reconnect_off a s off =
    let no : (s.to_connect && s.is_retry) ≡ false = ground (arith, off) in
    ap (λ b. if b then call_connector a (restart_op a.errno) s else some s) no

-- With retries off, Connect() behind the end of a connection neither connects nor starts a timer: the
-- connector is still connected, and Start() only sets its flag.
pub connect-operate :
    (retry : Bool) (a a' : Attempt) (o : Op) (n : ℕ) {acts : List Action} {s : TcpClient}
    → Run (init retry) acts s
    → GoesDown o n s
    → s.is_retry ≡ false
    → (s' : TcpClient) × (operate a o n s ≡ some s')
      × (s'.connection ≡ none)
      × (connect a' s'
          ≡ some
              (record s' { to_connect = true; connector = record s'.connector { connect = true } }))
unfolding connect
connect-operate retry a a' o n {s = s} r d off =
    let h = Run-in_step r (init-in_step retry) in
    let (current, c'', q) = operate-removed a o n s h d in
    let up : is_connected s.connector.state ≡ true = ground (arith, h, current) in
    let s' = removed n c'' s in
    (
      s',
      q ∙ reconnect_off a s' off,
      refl,
      ap (with_connector (record s' { to_connect = true }))
          (start-connected a'.timer a'.fd a'.errno s.connector up),
    )

-- With to_connect_ and is_retry set and no ResetChannel() queued, a connection that goes down leaves
-- no connection_ and a connector that is connecting on a new socket, if connect(2) of this socket is
-- under way: RemoveConnection() itself has made the attempt.
pub operate-reconnect :
    (retry : Bool) (timer fd : ℕ) (o : Op) (n : ℕ) {acts : List Action} {s : TcpClient}
    → Run (init retry) acts s
    → GoesDown o n s
    → s.to_connect ≡ true
    → s.is_retry ≡ true
    → s.resets ≡ 0
    → (s' : TcpClient) × (operate (record { timer = timer; fd = fd; errno = in_progress }) o n s
        ≡ some s')
      × (s'.connection ≡ none)
      × (s'.connector ≡ trying fd s.connector)
operate-reconnect retry timer fd o n {s = s} r d t on z =
    let h = Run-in_step r (init-in_step retry) in
    let a : Attempt = record { timer = timer; fd = fd; errno = in_progress } in
    let (current, c'', q) = operate-removed a o n s h d in
    let free : s.connector.channel ≡ none = ground (arith, h, current, z) in
    let s' = record (removed n c'' s) { connector = trying fd s.connector } in
    (
      s',
      q ∙ reconnect_on a (removed n c'' s) t on (restart_lem timer fd s.connector free),
      refl,
      refl,
    )

-- With to_connect_ and is_retry set, a connection that goes down while ResetChannel() is still
-- queued, as it can from its own connection callback, fails the assertion of Connecting() if
-- connect(2) of the next socket is under way.
pub operate-queued :
    (retry : Bool) (timer fd : ℕ) (o : Op) (n : ℕ) {acts : List Action} {s : TcpClient}
    → Run (init retry) acts s
    → GoesDown o n s
    → s.to_connect ≡ true
    → s.is_retry ≡ true
    → s.resets ≡ 1
    → operate (record { timer = timer; fd = fd; errno = in_progress }) o n s ≡ none
operate-queued retry timer fd o n {s = s} r d t on z =
    let h = Run-in_step r (init-in_step retry) in
    let a : Attempt = record { timer = timer; fd = fd; errno = in_progress } in
    let (current, c'', q) = operate-removed a o n s h d in
    let waits : stale s.connector.channel ≡ 1 = ground (arith, h, z) in
    q ∙ reconnect_on a (removed n c'' s) t on (restart-stale timer fd s.connector waits)
