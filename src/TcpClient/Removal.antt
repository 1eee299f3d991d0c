-- ===== src/TcpClient/Removal.antt =====
-- What a step of a connection and RemoveConnection() do to the client.
use mathlib.Core.Path.{subst}
use muzi.Prelude.{
  ℕ, ◌≡◌, refl, ap, ◌∙◌, Bool, true, false, ◌&&◌, inl, inr, List, Option, none, some, arith, length,
  ltb, ◌==◌, Bool-cases,
}
use muzi.Connector.{is_connecting}
use muzi.Connector.Sockets.{restart_op, step as connector_step}
use muzi.Connector.Calls.{stale, opens, is_connected, restart-quiet}
use muzi.TcpConnection.{TcpConnection, Effect, Result, disconnected, is, destroy_connection}
use muzi.TcpConnection.Run.{Op, shut, step as connection_step}
use muzi.TcpConnection.Lifecycle.{closes, down}
use muzi.TcpConnection.Owner.{
  owned, serves, own-step-serves, destroyed, destroy_connection_lem, shut_off, shut_lem, is_some,
  runs_on-own, own-step-runs,
}
use muzi.TcpClient.{
  TcpClient, Attempt, is_connection, at_number, replace, and_then, with_connection, reconnect,
  remove_connection, with_result, on_connection, shut_connection,
}
use muzi.TcpClient.Run.{may, result_closes, brings_down}
use muzi.TcpClient.Current.{
  fine, at_number-fine, at_number_found, length-replace, all_fine-replace, replace-replace,
}
use muzi.TcpClient.Steps.{current_ok, in_step, next, quiet-next}

-- A connection that stays what it was.
replace-next :
    (s : TcpClient) (n : ℕ) (c' : TcpConnection)
    → in_step s ≡ true
    → fine (is_connection s.connection n) c' ≡ true
    → in_step (record s { connections = replace n c' s.connections }) ≡ true
replace-next s n c' h f =
    let g =
      all_fine-replace n s.connection s.connection c' s.connections (λ k e. refl) f
        (ground (arith, h)) in
    rw (length-replace n c' s.connections, g) (ground (arith, h))

-- The connection of connection_ leaves.
removed-next :
    (s : TcpClient) (n : ℕ) (c' : TcpConnection)
    → in_step s ≡ true
    → s.connection ≡ some n
    → fine false c' ≡ true
    → in_step (record s { connection = none; connections = replace n c' s.connections }) ≡ true
removed-next s n c' h e f =
    let g = all_fine-replace n s.connection none c' s.connections others f (ground (arith, h)) in
    rw g (ground (arith, h))
  where
    others : (k : ℕ) → (k == n) ≡ false → is_connection s.connection k ≡ is_connection none k
    others k q = rw e (ground (arith, q))

-- The end of RemoveConnection() makes an attempt while ResetChannel() is queued.
abbrev reconnecting : Attempt → TcpClient → Bool
reconnecting a s = (opens a.errno && (s.to_connect && s.is_retry)) && ltb 0 s.resets

reconnect-next :
    (a : Attempt) (s : TcpClient)
    → in_step s ≡ true
    → s.connection ≡ none
    → is_connecting s.connector.state ≡ false
    → next (reconnecting a s) (reconnect a s) ≡ true
reconnect-next a s h e k = elim (Bool-cases (s.to_connect && s.is_retry)) [
  | inr off ↦ rw off (ground (arith, h, off))
  | inl on ↦
      let z : s.resets ≡ stale s.connector.channel = ground (arith, h) in
      let q =
        restart-quiet a.timer a.fd a.errno s.connector k (ground (arith, h)) (ground (arith, h)) in
      let may_fail : reconnecting a s ≡ (opens a.errno && ltb 0 s.resets) = ground (arith, on) in
      let o : current_ok s.connection (length s.connections) false ≡ true = rw e refl in
      rw (may_fail, on)
        (quiet-next (opens a.errno && ltb 0 s.resets) false s
          (connector_step a.timer a.fd (restart_op a.errno) s.connector) (rw z q) o
          (ground (arith, h)))
]

-- ShutDown() of connection_, and DisConnect() without one.
pub shut_connection-next :
    (s : TcpClient) → in_step s ≡ true → next false (shut_connection s s.connection) ≡ true
shut_connection-next s h = by_connection s.connection refl
  where
    shut_result :
        (n : ℕ) (c : TcpConnection) (r : Result)
        → fine (is_connection s.connection n) c ≡ true
        → shut_off c r ≡ true
        → next false (with_connection n s r) ≡ true
    shut_result n c none f e = absurd (ground (arith, e))
    shut_result n c (some (c', es)) f e = replace-next s n c' h (ground (arith, f, e))

    by_connection : (o : Option ℕ) → s.connection ≡ o → next false (shut_connection s o) ≡ true
    by_connection none e = h
    by_connection (some n) e =
        let ok : current_ok (some n) (length s.connections) (is_connected s.connector.state)
            ≡ true =
          subst (λ o. current_ok o (length s.connections) (is_connected s.connector.state) ≡ true) e
            (ground (arith, h)) in
        let (c, at) = at_number_found n s.connections (ground (arith, ok)) in
        let f = at_number-fine n s.connection s.connections at (ground (arith, h)) in
        rw at (shut_result n c (connection_step shut c) f (shut_lem c (ground (arith, f))))

connected_lem :
    (s : TcpClient) {n : ℕ}
    → in_step s ≡ true
    → s.connection ≡ some n
    → is_connecting s.connector.state ≡ false
connected_lem s h e = ground (arith, h, e)

is_connection→some : (o : Option ℕ) (n : ℕ) → is_connection o n ≡ true → o ≡ some n
is_connection→some none n h = absurd (ground arith)
is_connection→some (some m) n h = ap some (ground (arith, h))

-- The client that RemoveConnection() of its connection leaves to the connector.
abbrev pub removed : ℕ → TcpConnection → TcpClient → TcpClient
removed n c s = record s { connection = none; connections = replace n c s.connections }

-- RemoveConnection() of the connection that has just gone down.
pub remove_connection_lem :
    (a : Attempt) (n : ℕ) (c' : TcpConnection) (s : TcpClient)
    → s.connection ≡ some n
    → owned c' ≡ true
    → is c' disconnected ≡ true
    → c'.in_poller ≡ true
    → (c'' : TcpConnection) × (remove_connection a n c'
          (record s { connections = replace n c' s.connections })
        ≡ reconnect a (removed n c'' s))
      × (fine false c'' ≡ true)
remove_connection_lem a n c' s e w d p =
    let number : (n == n) ≡ true = ground arith in
    rw (e, number) (by_result (destroy_connection c') (destroy_connection_lem c' w d p))
  where
    by_result :
        (r : Result)
        → destroyed c' r ≡ true
        → (c'' : TcpConnection) × (and_then (reconnect a) (with_connection n (removed n c' s) r)
            ≡ reconnect a (removed n c'' s))
          × (fine false c'' ≡ true)
    by_result none q = absurd (ground (arith, q))
    by_result (some (c'', es)) q = (
      c'',
      ap (λ cs. reconnect a (record s { connection = none; connections = cs }))
          (replace-replace n c' c'' s.connections),
      ground (arith, q),
    )

module _ (b : Bool) (c c' : TcpConnection) (es : List Effect) (f : fine b c ≡ true)
    (v : serves c (some (c', es)) ≡ true) where
  stays_fine : (closes es == 0) ≡ true → fine b c' ≡ true
  stays_fine e = ground (arith, f, v, e)

  goes_down : (closes es == 0) ≡ false → (b ≡ true) × (down c' ≡ 1)
  goes_down e = (ground (arith, f, v, e), ground (arith, f, v, e))

  down_disconnected : down c' ≡ 1 → is c' disconnected ≡ true
  down_disconnected e = ground (arith, e)

  stays_in_poller : b ≡ true → c'.in_poller ≡ true
  stays_in_poller e = ground (arith, f, v, e)

-- Behind a step of a connection that goes down.
pub closes_lem :
    (a : Attempt) (n : ℕ) (c c' : TcpConnection) (es : List Effect) (s : TcpClient)
    → fine (is_connection s.connection n) c ≡ true
    → serves c (some (c', es)) ≡ true
    → (closes es == 0) ≡ false
    → (s.connection ≡ some n)
      × (c'' : TcpConnection) × (with_result a n s (some (c', es)) ≡ reconnect a (removed n c'' s))
      × (fine false c'' ≡ true)
closes_lem a n c c' es s f v e =
    let b = is_connection s.connection n in
    let (was, d) = goes_down b c c' es f v e in
    let current = is_connection→some s.connection n was in
    let (c'', q, g) =
      remove_connection_lem a n c' s current (ground (arith, v)) (down_disconnected b c c' es f v d)
        (stays_in_poller b c c' es f v was) in
    (current, c'', rw e q, g)

-- Behind a step of a connection, which goes down or not.
abbrev failing : Attempt → TcpClient → Bool → Bool
failing a s d = (opens a.errno && (s.to_connect && (s.is_retry && d))) && ltb 0 s.resets

-- Behind any step of a connection.
result-next :
    (a : Attempt) (n : ℕ) (c : TcpConnection) (s : TcpClient) (r : Result)
    → in_step s ≡ true
    → fine (is_connection s.connection n) c ≡ true
    → is_some r ≡ true
    → serves c r ≡ true
    → next (failing a s (result_closes r)) (with_result a n s r) ≡ true
result-next a n c s none h f i v = absurd (ground (arith, i))
result-next a n c s (some (c', es)) h f i v = elim (Bool-cases (closes es == 0)) [
  | inl on ↦
      let g = replace-next s n c' h (stays_fine (is_connection s.connection n) c c' es f v on) in
      rw on (ground (arith, g, on))
  | inr off ↦
      let (current, c'', q, g) = closes_lem a n c c' es s f v off in
      let d : failing a s (result_closes (some (c', es))) ≡ reconnecting a s =
        ground (arith, off) in
      ap (λ b. next b (with_result a n s (some (c', es)))) d
      ∙ ap (next (reconnecting a s)) q
      ∙ reconnect-next a (removed n c'' s) (removed-next s n c'' h current g) refl
          (connected_lem s h current)
]

pub on_connection-next :
    (a : Attempt) (o : Op) (n : ℕ) (s : TcpClient)
    → in_step s ≡ true
    → may o (at_number n s.connections) ≡ true
    → next
        (failing a s (brings_down o (at_number n s.connections)))
        (on_connection a o n s (at_number n s.connections))
      ≡ true
on_connection-next a o n s h m = found (at_number n s.connections) refl m
  where
    found :
        (r : Option TcpConnection)
        → at_number n s.connections ≡ r
        → may o r ≡ true
        → next (failing a s (brings_down o r)) (on_connection a o n s r) ≡ true
    found none e m = absurd (ground (arith, m))
    found (some c) e m =
        let f = at_number-fine n s.connection s.connections e (ground (arith, h)) in
        result-next a n c s (connection_step o c) h f (own-step-runs o c m (ground (arith, f)))
          (own-step-serves o c (runs_on-own o c m) (ground (arith, f)))
