-- ===== src/TcpClient/Safety.antt =====
-- The actions that the loop of a client can run, and what they leave of its connections.
use mathlib.Core.Path.{subst}
use muzi.Prelude.{
  ℕ, ◌+◌, ◌≡◌, refl, Bool, true, false, not, ◌&&◌, inl, inr, List, [], Option, none, some, arith,
  length, ltb,
}
use muzi.Connector.{Result, is_connecting, init as new_connector}
use muzi.Connector.Sockets.{start_op, timer_op, stop_op, write_op, step as connector_step}
use muzi.Connector.Calls.{
  stale, is_connected, start-quiet, timer-quiet, stop-quiet, handle_write-made, MadeOrQuiet,
  reset_channel_lem,
}
use muzi.TcpConnection.{TcpConnection, disconnected, is}
use muzi.TcpClient.{
  TcpClient, Attempt, init, is_connection, at_number, and_then, run_effects, with_connector,
  new_connection_in_loop, connect, stop, disconnect, disable_connect_in_loop, operate,
}
use muzi.TcpClient.Run.{
  Action, call_connect, call_stop, expire, call_disconnect, disable, reset, connected, operating,
  step, enabled, tries, Run, done, after,
}
use muzi.TcpClient.Current.{at_number-fine}
use muzi.TcpClient.Steps.{current_ok, in_step, next, quiet-next, new_connection_in_loop-next}
use muzi.TcpClient.Removal.{shut_connection-next, on_connection-next}

no_connection : (o : Option ℕ) (k : ℕ) → current_ok o k false ≡ true → o ≡ none
no_connection none k h = refl
no_connection (some n) k h = absurd (ground (arith, h))

and_then_end :
    (r : Option TcpClient) → next false r ≡ true → next false (and_then (run_effects []) r) ≡ true
and_then_end none h = h
and_then_end (some s) h = h

-- HandleWrite() of the connector.
connected-next :
    (a : Attempt) (s : TcpClient) (r : Result)
    → in_step s ≡ true
    → s.resets ≡ 0
    → s.connection ≡ none
    → MadeOrQuiet r
    → next false (with_connector s r) ≡ true
connected-next a s r h z e (inl q) =
    quiet-next false false s r (rw z q) (rw e refl) (ground (arith, h))
connected-next a s r h z e (inr (c', fd, at, k, q)) =
    let s' = record s { connector = c'; resets = s.resets + 1 } in
    rw at (
      and_then_end (new_connection_in_loop s')
        (new_connection_in_loop-next s' (ground (arith, h, z, e, k, q)) e k))

step-next :
    (a : Action) (s : TcpClient)
    → enabled a s ≡ true
    → in_step s ≡ true
    → next (tries a s && ltb 0 s.resets) (step a s) ≡ true
unfolding step connect stop disconnect disable_connect_in_loop operate
step-next (call_connect a) s w h =
    let e : s.resets ≡ stale s.connector.channel = ground (arith, h) in
    let s' = record s { to_connect = true } in
    let q = start-quiet a.timer a.fd a.errno s.connector (ground (arith, h)) (ground (arith, h)) in
    quiet-next (tries (call_connect a) s && ltb 0 s.resets) (is_connected s.connector.state) s'
      (connector_step a.timer a.fd (start_op a.errno) s.connector) (rw e q) (ground (arith, h))
      (ground (arith, h))
step-next (expire a) s w h =
    let e : s.resets ≡ stale s.connector.channel = ground (arith, h) in
    let q = timer-quiet a.timer a.fd a.errno s.connector (ground (arith, h)) (ground (arith, h)) in
    quiet-next (tries (expire a) s && ltb 0 s.resets) (is_connected s.connector.state) s
      (connector_step a.timer a.fd (timer_op a.errno) s.connector) (rw e q) (ground (arith, h))
      (ground (arith, h))
step-next (call_stop a) s w h =
    let e : s.resets ≡ stale s.connector.channel = ground (arith, h) in
    let s' = record s { to_connect = false } in
    let q = stop-quiet a.timer a.fd s.connector (ground (arith, h)) (ground (arith, h)) in
    quiet-next false (is_connected s.connector.state) s'
      (connector_step a.timer a.fd stop_op s.connector) (rw e q) (ground (arith, h))
      (ground (arith, h))
step-next call_disconnect s w h = shut_connection-next (record s { to_connect = false }) h
step-next disable s w h = h
step-next reset s w h = rw (reset_channel_lem s.connector) (ground (arith, w, h))
step-next (connected a error self) s w h =
    let k : is_connecting s.connector.state ≡ true = w in
    let z : s.resets ≡ 0 = ground (arith, h, k) in
    let e = no_connection s.connection (length s.connections) (ground (arith, h, k)) in
    connected-next a s (connector_step a.timer a.fd (write_op error self) s.connector) h z e
      (handle_write-made a.timer a.fd error self s.connector k (ground (arith, h, z)))
step-next (operating a o n) s w h = on_connection-next a o n s h w

pub init-in_step : (retry : Bool) → in_step (init retry) ≡ true
unfolding init new_connector
init-in_step retry = refl

abbrev kept : Option TcpClient → Bool
kept none = true
kept (some s) = in_step s

kept-next : (fails : Bool) (r : Option TcpClient) → next fails r ≡ true → kept r ≡ true
kept-next fails none h = refl
kept-next fails (some s) h = ground (arith, h)

pub Run-in_step :
    {s s' : TcpClient} {acts : List Action} → Run s acts s' → in_step s ≡ true → in_step s' ≡ true
Run-in_step (done s) h = h
Run-in_step (after {s} {s₁} a w e r) h =
    Run-in_step r (subst (λ o. kept o ≡ true) e (kept-next _ (step a s) (step-next a s w h)))

abbrev pub failed : Option TcpClient → Bool
failed none = true
failed (some s) = false

-- Behind any actions of a client's loop that fail no assertion, a connection is up exactly if it is the one of connection_,
-- and exactly then its channel is in the poller.
pub at_number-up :
    (retry : Bool) (n : ℕ) {acts : List Action} {s : TcpClient} {c : TcpConnection}
    → Run (init retry) acts s
    → at_number n s.connections ≡ some c
    → (is c disconnected ≡ not (is_connection s.connection n))
      × (c.in_poller ≡ is_connection s.connection n)
at_number-up retry n {s = s} {c = c} r e =
    let h = Run-in_step r (init-in_step retry) in
    let f = at_number-fine n s.connection s.connections e (ground (arith, h)) in
    (ground (arith, f), ground (arith, f))
