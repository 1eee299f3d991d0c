-- ===== src/TcpConnection/Lifecycle.antt =====
-- A connection only goes forward through its states, and what that means for the callbacks, the
-- wanted events and the shutdown.
use muzi.Prelude.{
  is_empty, is_empty→nil, ℕ, suc, ◌+◌, ◌≤◌, ◌<◌, ◌≡◌, Bool, true, false, not, ◌&&◌, ◌||◌, List, [],
  ◌∷◌, ◌++◌, none, some, arith, leb, ◌==◌, if◌then◌else◌,
}
use mathlib.Core.Path.{subst}
use muzi.TcpConnection.{
  TcpConnection, ConnectionState, connecting, connected, disconnected, disconnecting, Effect,
  Result, connection, close, message, write_complete, high_water, wrote, shut_down_on_write,
  done as sent, got, failed, is, handle_close, force_close_in_loop, shut_down_in_loop, shut_down,
  send_buffer_in_loop, send_remaining, send_in_loop, send, send_buffer, force_close,
  establish_connection, destroy_connection, start_read_in_loop, stop_read_in_loop, handle_read,
  after_write, handle_write,
}
use muzi.TcpConnection.Run.{
  Op, establish, shut, force, destroy, start_read, stop_read, send_bytes, send_stored, readable,
  writable, step, Run, done, after,
}

abbrev pub rank : ConnectionState → ℕ
rank connecting = 0
rank connected = 1
rank disconnecting = 2
rank disconnected = 3

-- Calls of the close callback.
abbrev pub closes : List Effect → ℕ
closes [] = 0
closes (close ∷ es) = suc (closes es)
closes (connection ∷ es) = closes es
closes (message ∷ es) = closes es
closes (write_complete ∷ es) = closes es
closes (high_water n ∷ es) = closes es
closes (wrote bytes ∷ es) = closes es
closes (shut_down_on_write ∷ es) = closes es

abbrev pub shut_downs : List Effect → ℕ
shut_downs [] = 0
shut_downs (shut_down_on_write ∷ es) = suc (shut_downs es)
shut_downs (close ∷ es) = shut_downs es
shut_downs (connection ∷ es) = shut_downs es
shut_downs (message ∷ es) = shut_downs es
shut_downs (write_complete ∷ es) = shut_downs es
shut_downs (high_water n ∷ es) = shut_downs es
shut_downs (wrote bytes ∷ es) = shut_downs es

-- A connection that is down wants no events; one that is up and has bytes stored waits for room.
abbrev pub sound : TcpConnection → Bool
sound c =
    if is c disconnected
    then not c.writing && not c.reading
    else is_empty c.output_buffer || c.writing

abbrev pub down : TcpConnection → ℕ
down c = if is c disconnected then 1 else 0

-- What a step to `c'` with the effects `es` keeps.
abbrev good : TcpConnection → TcpConnection → List Effect → Bool
good c c' es =
    leb (rank c.state) (rank c'.state)
    && (leb (closes es + down c) (down c')
        && (not (sound c)
            || (sound c' && (shut_downs es == 0 || (is_empty c'.output_buffer && not c'.writing)))))

abbrev good_result : TcpConnection → Result → Bool
good_result c none = true
good_result c (some (c', es)) = good c c' es

step_good : (o : Op) (c : TcpConnection) → good_result c (step o c) ≡ true
unfolding step establish_connection shut_down shut_down_in_loop force_close force_close_in_loop
    handle_close destroy_connection start_read_in_loop stop_read_in_loop send send_in_loop
    send_remaining send_buffer send_buffer_in_loop handle_read handle_write after_write
step_good establish c = ground arith
step_good shut c = ground arith
step_good force c = ground arith
step_good destroy c = ground arith
step_good start_read c = ground arith
step_good stop_read c = ground arith
step_good (send_bytes bytes beyond r) c = ground arith
step_good (send_stored buf) c = ground arith
step_good (readable failed) c = ground arith
step_good (readable (got [])) c = ground arith
step_good (readable (got (x ∷ xs))) c = ground arith
step_good (writable failed) c = ground arith
step_good (writable (sent n)) c = ground arith

good_at :
    (o : Op) (c : TcpConnection) {c' : TcpConnection} {es : List Effect}
    → step o c ≡ some (c', es)
    → good c c' es ≡ true
good_at o c e = subst (λ r. good_result c r ≡ true) e (step_good o c)

closes-append : (es fs : List Effect) → closes (es ++ fs) ≡ closes es + closes fs
closes-append [] fs = omega arith
closes-append (close ∷ es) fs = omega (arith, closes-append es fs)
closes-append (connection ∷ es) fs = closes-append es fs
closes-append (message ∷ es) fs = closes-append es fs
closes-append (write_complete ∷ es) fs = closes-append es fs
closes-append (high_water n ∷ es) fs = closes-append es fs
closes-append (wrote bytes ∷ es) fs = closes-append es fs
closes-append (shut_down_on_write ∷ es) fs = closes-append es fs

-- Over any run the state only goes forward: connecting, connected, disconnecting, disconnected.
pub Run-forward :
    {c c' : TcpConnection} {ops : List Op} {es : List Effect}
    → Run c ops es c'
    → rank c.state ≤ rank c'.state
Run-forward (done c) = omega arith
Run-forward (after o e rest) = let tail = Run-forward rest in let g = good_at o _ e in ground arith

-- Over any run the close callback is called at most once, and then the connection is down at the
-- end and was not down at the start.
pub closes-down :
    {c c' : TcpConnection} {ops : List Op} {es : List Effect}
    → Run c ops es c'
    → closes es + down c ≤ down c'
closes-down (done c) = omega arith
closes-down (after {es = es} {fs = fs} o e rest) =
    let tail = closes-down rest in
    let g = good_at o _ e in let sum = closes-append es fs in ground arith

-- Over any run from a connection that is sound, the one at the end is sound: it is down and wants
-- no events, or it waits for room to write if it has bytes stored.
pub Run-sound :
    {c c' : TcpConnection} {ops : List Op} {es : List Effect}
    → Run c ops es c'
    → sound c ≡ true
    → sound c' ≡ true
Run-sound (done c) h = h
Run-sound (after o e rest) h = Run-sound rest (let g = good_at o _ e in ground arith)

-- A step of a sound connection that shuts the socket down for writing leaves no byte to write and
-- does not wait for room.
pub shut_downs-output :
    (o : Op) (c : TcpConnection) {c' : TcpConnection} {es : List Effect}
    → step o c ≡ some (c', es)
    → sound c ≡ true
    → 0 < shut_downs es
    → (c'.output_buffer ≡ []) × (c'.writing ≡ false)
shut_downs-output o c e h some_shut =
    let g = good_at o _ e in (is_empty→nil _ (ground arith), ground arith)
